-- ===== src/Hub/Logs.antt =====
-- Whole runs of a transport: the events of each of its goroutines, by their number, read off the
-- run itself.
use vice.Base.{ℕ, zero, suc, ◌≡◌, subst, sym, List, [], ◌∷◌, ◌++◌, map}
use vice.Hub.Runs.{Action, moves}

module _ {Ev : Type 0} where
  -- One more event of goroutine number `i`.
  unfoldable pub extend : ℕ → Ev → (ℕ → List Ev) → ℕ → List Ev
  extend zero e es zero = es zero ++ (e ∷ [])
  extend zero e es (suc j) = es (suc j)
  extend (suc i) e es zero = es zero
  extend (suc i) e es (suc j) = extend i e (λ k. es (suc k)) j

  abbrev pub nothing : ℕ → List Ev
  nothing i = []

  -- The events of each goroutine in a run, after those of `es`.
  unfoldable pub heard : List (Action (ℕ × Ev)) → (ℕ → List Ev) → ℕ → List Ev
  heard [] es = es
  heard (moves ev ∷ path) es = heard path (extend ev.0 ev.1 es)
  heard (a ∷ path) es = heard path es

-- Each goroutine with its own events; the numbers that no goroutine has yet have none.
unfoldable pub Logged : {W Ev : Type 0} → (List Ev → W → Type 0) → List W → (ℕ → List Ev) → Type 0
Logged K [] es = (i : ℕ) → es i ≡ []
Logged K (w ∷ ws) es = K (es zero) w × Logged K ws (λ i. es (suc i))

module _ {W Ev : Type 0} where
  -- Another goroutine, which has done nothing.
  pub Logged-append :
      (K : List Ev → W → Type 0) (ws : List W) (w : W) (es : ℕ → List Ev)
      → K [] w
      → Logged K ws es
      → Logged K (ws ++ (w ∷ [])) es
  unfolding Logged
  Logged-append K [] w es k none_yet =
      (subst (λ l. K l w) (sym (none_yet zero)) k, λ i. none_yet (suc i))
  Logged-append K (v ∷ ws) w es k all = (all.0, Logged-append K ws w (λ i. es (suc i)) k all.1)

  -- A change of all of them.
  pub Logged-map :
      (K K' : List Ev → W → Type 0) (f : W → W)
      → ((l : List Ev) (w : W) → K l w → K' l (f w))
      → (ws : List W) (es : ℕ → List Ev) → Logged K ws es
      → Logged K' (map f ws) es
  unfolding Logged
  Logged-map K K' f k [] es all = all
  Logged-map K K' f k (w ∷ ws) es all =
      (k (es zero) w all.0, Logged-map K K' f k ws (λ i. es (suc i)) all.1)
