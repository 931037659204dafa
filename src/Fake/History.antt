-- ===== src/Fake/History.antt =====
-- queues/sqs/sqsfakes/fake_sqsapi.go: what a method of the fake returns, from what was done to it.
use vice.Base.{
  ℕ, ◌≡◌, refl, ap, sym, ◌∙◌, List, [], ◌∷◌, ◌++◌, Option, none, some, arith, length, get_elem?,
  ◌==◌, if◌then◌else◌, append_assoc, append-nil,
}
use vice.Fake.Calling.{
  Method, new_method, at, at-put, answer, call, call_count, calls, args_for_call, returns,
  returns_on_call,
}

-- What is done to one method of the fake.
pub data Op (A R : Type 0) : Type 0 where
  sets_stub : Option (A → R) → Op A R
  sets_results : R → Op A R
  sets_results_on : ℕ → R → Op A R
  is_called : A → Op A R

module _ {A R : Type 0} where
  unfoldable pub perform : Op A R → Method A R → Method A R × List R
  unfolding call calls returns returns_on_call
  perform (sets_stub f) m = (calls f m, [])
  perform (sets_results r) m = (returns r m, [])
  perform (sets_results_on i r) m = (returns_on_call i r m, [])
  perform (is_called a) m = let (t, r) = call a m in (t, r ∷ [])

  unfoldable pub run : List (Op A R) → Method A R → Method A R × List R
  unfolding perform
  run [] m = (m, [])
  run (op ∷ ops) m =
      let (t, here) = perform op m in let (u, later) = run ops t in (u, here ++ later)

  -- The stub that counts after a history, the latest first: each way of setting results drops it.
  abbrev pub stub_after : List (Op A R) → Option (A → R)
  stub_after [] = none
  stub_after (sets_stub f ∷ past) = f
  stub_after (sets_results r ∷ past) = none
  stub_after (sets_results_on i r ∷ past) = none
  stub_after (is_called a ∷ past) = stub_after past

  -- The latest results for every call.
  abbrev pub results_after : R → List (Op A R) → R
  results_after nil [] = nil
  results_after nil (sets_stub f ∷ past) = results_after nil past
  results_after nil (sets_results r ∷ past) = r
  results_after nil (sets_results_on i r ∷ past) = results_after nil past
  results_after nil (is_called a ∷ past) = results_after nil past

  -- The latest results for call number `n`.
  abbrev pub results_on_after : ℕ → List (Op A R) → Option R
  results_on_after n [] = none
  results_on_after n (sets_stub f ∷ past) = results_on_after n past
  results_on_after n (sets_results r ∷ past) = results_on_after n past
  results_on_after n (sets_results_on i r ∷ past) =
      if i == n then some r else results_on_after n past
  results_on_after n (is_called a ∷ past) = results_on_after n past

  abbrev pub arguments_after : List (Op A R) → List A
  arguments_after [] = []
  arguments_after (sets_stub f ∷ past) = arguments_after past
  arguments_after (sets_results r ∷ past) = arguments_after past
  arguments_after (sets_results_on i r ∷ past) = arguments_after past
  arguments_after (is_called a ∷ past) = arguments_after past ++ (a ∷ [])

  -- What a call returns after a history.
  abbrev pub expected : R → List (Op A R) → A → R
  expected nil past a = elim (stub_after past) [
    | some f ↦ f a
    | none ↦ elim (results_on_after (length (arguments_after past)) past) [
      | some r ↦ r
      | none ↦ results_after nil past
    ]
  ]

  -- What the calls of `ops` return, after a history.
  abbrev pub answers : R → List (Op A R) → List (Op A R) → List R
  answers nil past [] = []
  answers nil past (sets_stub f ∷ ops) = answers nil (sets_stub f ∷ past) ops
  answers nil past (sets_results r ∷ ops) = answers nil (sets_results r ∷ past) ops
  answers nil past (sets_results_on i r ∷ ops) = answers nil (sets_results_on i r ∷ past) ops
  answers nil past (is_called a ∷ ops) = expected nil past a ∷ answers nil (is_called a ∷ past) ops

  abbrev pub arguments_of : List (Op A R) → List A
  arguments_of [] = []
  arguments_of (sets_stub f ∷ ops) = arguments_of ops
  arguments_of (sets_results r ∷ ops) = arguments_of ops
  arguments_of (sets_results_on i r ∷ ops) = arguments_of ops
  arguments_of (is_called a ∷ ops) = a ∷ arguments_of ops

  -- The fields of a method hold its history.
  record Recalls (nil : R) (m : Method A R) (past : List (Op A R)) : Type 0 where
    stub_same : m.stub ≡ stub_after past
    results_same : m.results ≡ results_after nil past
    on_call_same : (n : ℕ) → at n m.results_on_call ≡ results_on_after n past
    arguments_same : m.arguments ≡ arguments_after past

  answer-expected :
      (nil : R) (past : List (Op A R)) (a : A)
      → answer
          (stub_after past)
          a
          (results_on_after (length (arguments_after past)) past)
          (results_after nil past)
        ≡ expected nil past a
  answer-expected nil past a = ground arith

  call-expected :
      (nil : R) (m : Method A R) (past : List (Op A R)) (a : A)
      → Recalls nil m past
      → (call a m).1 ≡ expected nil past a
  unfolding call
  call-expected nil m past a k =
      let n = length m.arguments in
      let same : answer m.stub a (at n m.results_on_call) m.results
          ≡ answer (stub_after past) a (results_on_after (length (arguments_after past)) past)
              (results_after nil past) =
        rw (k.stub_same, k.on_call_same n, k.results_same, k.arguments_same) refl in
      same ∙ answer-expected nil past a

  perform-Recalls :
      (nil : R) (m : Method A R) (past : List (Op A R)) (op : Op A R)
      → Recalls nil m past
      → Recalls nil (perform op m).0 (op ∷ past)
  unfolding perform call calls returns returns_on_call
  perform-Recalls nil m past (sets_stub f) k = record {
    stub_same = refl;
    results_same = k.results_same;
    on_call_same = k.on_call_same;
    arguments_same = k.arguments_same;
  }
  perform-Recalls nil m past (sets_results r) k = record {
    stub_same = refl;
    results_same = refl;
    on_call_same = k.on_call_same;
    arguments_same = k.arguments_same;
  }
  perform-Recalls nil m past (sets_results_on i r) k = record {
    stub_same = refl;
    results_same = k.results_same;
    on_call_same = λ n.
        at-put i n r m.results_on_call ∙ ap (λ q. if i == n then some r else q) (k.on_call_same n);
    arguments_same = k.arguments_same;
  }
  perform-Recalls nil m past (is_called a) k = record {
    stub_same = k.stub_same;
    results_same = k.results_same;
    on_call_same = k.on_call_same;
    arguments_same = ap (λ l. l ++ (a ∷ [])) k.arguments_same;
  }

  run-answers :
      (nil : R) (ops past : List (Op A R)) (m : Method A R)
      → Recalls nil m past
      → (run ops m).1 ≡ answers nil past ops
  unfolding run perform
  run-answers nil [] past m k = refl
  run-answers nil (sets_stub f ∷ ops) past m k =
      run-answers nil ops _ _ (perform-Recalls nil m past (sets_stub f) k)
  run-answers nil (sets_results r ∷ ops) past m k =
      run-answers nil ops _ _ (perform-Recalls nil m past (sets_results r) k)
  run-answers nil (sets_results_on i r ∷ ops) past m k =
      run-answers nil ops _ _ (perform-Recalls nil m past (sets_results_on i r) k)
  run-answers nil (is_called a ∷ ops) past m k = rw (call-expected nil m past a k) (
      ap (λ l. expected nil past a ∷ l)
        (run-answers nil ops _ _ (perform-Recalls nil m past (is_called a) k)))

  run-arguments :
      (m : Method A R) (ops : List (Op A R))
      → (run ops m).0.arguments ≡ m.arguments ++ arguments_of ops
  unfolding run perform call calls returns returns_on_call
  run-arguments m [] = sym (append-nil m.arguments)
  run-arguments m (sets_stub f ∷ ops) = run-arguments (calls f m) ops
  run-arguments m (sets_results r ∷ ops) = run-arguments (returns r m) ops
  run-arguments m (sets_results_on i r ∷ ops) = run-arguments (returns_on_call i r m) ops
  run-arguments m (is_called a ∷ ops) =
      run-arguments (call a m).0 ops ∙ append_assoc m.arguments (a ∷ []) (arguments_of ops)

  -- A new method of the fake, whatever is set and called on it, in any order, behaves as its history
  -- says. Each call returns what the stub returns, if the latest thing set was a stub that is not
  -- nil; otherwise the latest results set for the number of that call; otherwise the latest results
  -- set for every call; otherwise the zero value. And the count of the calls and the arguments of
  -- call number `i` are those of the calls made.
  pub fake_method-answers :
      (nil : R) (ops : List (Op A R))
      → let (m, results) = run ops (new_method nil) in
        (results ≡ answers nil [] ops)
        × (call_count m ≡ length (arguments_of ops))
        × ((i : ℕ) → args_for_call i m ≡ get_elem? (arguments_of ops) i)
  unfolding new_method call_count args_for_call
  fake_method-answers nil ops =
      let same = run-arguments (new_method nil) ops in
      (
        run-answers nil ops [] (new_method nil) (record {
          stub_same = refl;
          results_same = refl;
          on_call_same = λ n. refl;
          arguments_same = refl;
        }),
        ap length same,
        λ i. ap (λ l. get_elem? l i) same,
      )
