-- ===== src/Fake/Calling.antt =====
-- queues/sqs/sqsfakes/fake_sqsapi.go: the text that the file repeats for each method of the fake,
-- over the type `A` of the method's arguments and the type `R` of its results. A stub is a function
-- of its arguments.
use vice.Base.{
  ℕ, ◌≡◌, refl, arith, List, [], ◌∷◌, ◌++◌, Option, none, some, length, get_elem?, ◌==◌,
  if◌then◌else◌,
}

-- The fields for one method.
pub record Method (A R : Type 0) : Type 0 where
  pub stub : Option (A → R)
  pub arguments : List A
  pub results : R
  pub results_on_call : List (ℕ × R)

-- As `new(FakeSQSAPI)` has them, with the zero value of the results.
unfoldable pub new_method : {A R : Type 0} → R → Method A R
new_method nil = record { stub = none; arguments = []; results = nil; results_on_call = [] }

module _ {R : Type 0} where
  -- A map[int], read and written.
  abbrev pub at : ℕ → List (ℕ × R) → Option R
  at i [] = none
  at i ((j, r) ∷ m) = if j == i then some r else at i m

  abbrev pub put : ℕ → R → List (ℕ × R) → List (ℕ × R)
  put i r [] = (i, r) ∷ []
  put i r ((j, q) ∷ m) = if j == i then (i, r) ∷ m else (j, q) ∷ put i r m

  pub at-put :
      (i j : ℕ) (r : R) (m : List (ℕ × R)) → at j (put i r m) ≡ (if i == j then some r else at j m)
  at-put i j r [] = refl
  at-put i j r ((k, q) ∷ m) = ground (arith, at-put i j r m)

  -- The results that were set for the call, or those for every call.
  abbrev pub preset : Option R → R → R
  preset none r = r
  preset (some q) r = q

module _ {A R : Type 0} where
  -- The stub's results, or without a stub those that were set.
  abbrev pub answer : Option (A → R) → A → Option R → R → R
  answer (some f) a q r = f a
  answer none a q r = preset q r

  unfoldable pub call : A → Method A R → Method A R × R
  call a m = (
    record m { arguments = m.arguments ++ (a ∷ []) },
    answer m.stub a (at (length m.arguments) m.results_on_call) m.results,
  )

  unfoldable pub call_count : Method A R → ℕ
  call_count m = length m.arguments

  unfoldable pub calls : Option (A → R) → Method A R → Method A R
  calls f m = record m { stub = f }

  -- `none`: the index is out of range, and the code panics.
  unfoldable pub args_for_call : ℕ → Method A R → Option A
  args_for_call i m = get_elem? m.arguments i

  unfoldable pub returns : R → Method A R → Method A R
  returns r m = record m { stub = none; results = r }

  unfoldable pub returns_on_call : ℕ → R → Method A R → Method A R
  returns_on_call i r m = record m { stub = none; results_on_call = put i r m.results_on_call }
