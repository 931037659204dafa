-- ===== src/Backoff/Calls.antt =====
-- backoff/backoff.go: how often `Do` calls the function, and what it returns.
use vice.Base.{
  ℕ, zero, suc, ◌+◌, ◌^◌, ◌≤◌, ◌<◌, ◌≡◌, ◌≢◌, refl, sym, ap, ◌∙◌, ◌⊎◌, inl, inr, [], ◌∷◌, Option,
  none, some, arith, length, Option-cases, dec_lt, subst, true, false,
}
use vice.Backoff.{Outcome, after_sleep, int64, gives_up, next_backoff, do_loop, do_retry}

-- The calls from number `i` on: all but the last failed, the last one's error is the result, and
-- there is one sleep between two calls.
pub record Retried {ℓ} {E : Type ℓ} (f : ℕ → Option E) (i : ℕ) (o : Outcome E) : Type ℓ where
  pub last : ℕ
  pub counted : o.calls ≡ last + 1
  pub after : i ≤ last
  pub result : o.result ≡ f last
  pub failed : (j : ℕ) → i ≤ j → j < last → f j ≢ none
  pub slept : length o.sleeps + i ≡ last

-- The loop ends by a success, or after `max_calls` calls.
abbrev pub EndsBy {ℓ} : {E : Type ℓ} → ℕ → Outcome E → Type ℓ
EndsBy max_calls o = (o.result ≡ none) ⊎ (o.calls ≡ max_calls)

module _ {ℓ} {E : Type ℓ} (f : ℕ → Option E) where
  Retried-after_sleep :
      (i b : ℕ) (o : Outcome E)
      → f i ≢ none
      → Retried f (i + 1) o
      → Retried f i (record o { sleeps = b ∷ o.sleeps })
  Retried-after_sleep i b o failing r = record {
    last = r.last;
    counted = r.counted;
    after = omega (arith, r.after);
    result = r.result;
    failed = λ j from below. elim (dec_lt i j) [
      | yes later ↦ r.failed j (omega arith) below
      | no same ↦ let e : i ≡ j = omega arith in subst (λ k. f k ≢ none) e failing
    ];
    slept = omega (arith, r.slept);
  }

  Retried-one :
      (i : ℕ) (o : Outcome E)
      → o.result ≡ f i
      → o.calls ≡ i + 1
      → length o.sleeps ≡ 0
      → Retried f i o
  Retried-one i o same counted none_slept = record {
    last = i;
    counted = counted;
    after = omega arith;
    result = same;
    failed = λ j from below. absurd (omega arith);
    slept = omega arith;
  }

  gives_up_cases :
      (i calls max_calls : ℕ)
      → calls ≡ i
      → i < max_calls
      → max_calls < 2 ^ 63
      → ((gives_up max_calls (int64 (calls + 1)) ≡ true) × (i + 1 ≡ max_calls))
        ⊎ ((gives_up max_calls (int64 (calls + 1)) ≡ false) × (i + 1 < max_calls))
  gives_up_cases i calls max_calls e below small = ground arith

  module _ (max_backoff max_calls fuel i calls backoff : ℕ) where
    do_loop-ok :
        f i ≡ none
        → do_loop f max_backoff max_calls (suc fuel) i calls backoff
          ≡ some (record { result = none; calls = i + 1; sleeps = [] })
    unfolding do_loop
    do_loop-ok h = rw (h, do_loop)

    do_loop-last :
        (e : E)
        → f i ≡ some e
        → gives_up max_calls (int64 (calls + 1)) ≡ true
        → do_loop f max_backoff max_calls (suc fuel) i calls backoff
          ≡ some (record { result = some e; calls = i + 1; sleeps = [] })
    unfolding do_loop
    do_loop-last e h g = rw (h, do_loop) (rw g)

    pub do_loop-again :
        (e : E)
        → f i ≡ some e
        → gives_up max_calls (int64 (calls + 1)) ≡ false
        → do_loop f max_backoff max_calls (suc fuel) i calls backoff
          ≡ after_sleep (next_backoff max_backoff backoff) (
              do_loop f max_backoff max_calls fuel
                (i + 1)
                (int64 (calls + 1))
                (next_backoff max_backoff backoff))
    unfolding do_loop
    do_loop-again e h g = rw (h, do_loop) (rw g)

  do_loop-Retried :
      (max_backoff max_calls fuel i calls backoff : ℕ)
      → calls ≡ i
      → i < max_calls
      → max_calls < 2 ^ 63
      → max_calls ≤ i + fuel
      → (o : Outcome E) × (do_loop f max_backoff max_calls fuel i calls backoff ≡ some o)
        × Retried f i o
        × EndsBy max_calls o
        × (o.calls ≤ max_calls)
  do_loop-Retried mb mc zero i c b same lt small enough = absurd (omega arith)
  do_loop-Retried mb mc (suc fuel) i c b same lt small enough = elim (Option-cases (f i)) [
    | inl success ↦ (
      _,
      do_loop-ok mb mc fuel i c b success,
      Retried-one i _ (sym success) refl refl,
      inl refl,
      omega arith,
    )
    | inr (e, failure) ↦ elim (gives_up_cases i c mc same lt small) [
      | inl (stop, end) ↦ (
        _,
        do_loop-last mb mc fuel i c b e failure stop,
        Retried-one i _ (sym failure) refl refl,
        inr end,
        omega arith,
      )
      | inr (go, more) ↦
          let (o, run, r, end, few) =
            do_loop-Retried mb mc fuel (i + 1) (int64 (c + 1)) (next_backoff mb b) (omega arith)
              more small (omega arith) in
          (
            record o { sleeps = next_backoff mb b ∷ o.sleeps },
            do_loop-again mb mc fuel i c b e failure go ∙ ap (after_sleep (next_backoff mb b)) run,
            Retried-after_sleep i _ o (λ z. cc (z, failure)) r,
            end,
            few,
          )
    ]
  ]

  -- With `max_calls` not zero, `Do` calls the function at most so often and returns: nil after the
  -- first success, otherwise the error of the last call, having slept once between two calls.
  -- As many rounds of the loop as `max_calls` are enough.
  pub do_retry-Retried :
      (initial_backoff max_backoff max_calls fuel : ℕ)
      → 0 < max_calls
      → max_calls < 2 ^ 63
      → max_calls ≤ fuel
      → (o : Outcome E) × (do_retry f max_backoff max_calls initial_backoff fuel ≡ some o)
        × Retried f 0 o
        × EndsBy max_calls o
        × (o.calls ≤ max_calls)
  unfolding do_retry
  do_retry-Retried ib mb mc fuel some_calls small enough =
      do_loop-Retried mb mc fuel 0 0 ib refl some_calls small (omega arith)

  do_loop-unbounded :
      (max_backoff fuel i calls backoff j : ℕ)
      → i ≤ j
      → f j ≡ none
      → j < i + fuel
      → (o : Outcome E) × (do_loop f max_backoff 0 fuel i calls backoff ≡ some o)
        × Retried f i o
        × (o.result ≡ none)
  do_loop-unbounded mb zero i c b j le success enough = absurd (omega arith)
  do_loop-unbounded mb (suc fuel) i c b j le success enough = elim (Option-cases (f i)) [
    | inl now ↦ (_, do_loop-ok mb 0 fuel i c b now, Retried-one i _ (sym now) refl refl, refl)
    | inr (e, failure) ↦
        let later : i + 1 ≤ j = i-ne i j le (λ q. cc (ap f q, success, failure)) in
        let (o, run, r, end) =
          do_loop-unbounded mb fuel (i + 1) (int64 (c + 1)) (next_backoff mb b) j later success
            (omega arith) in
        (
          record o { sleeps = next_backoff mb b ∷ o.sleeps },
          do_loop-again mb 0 fuel i c b e failure (ground arith)
              ∙ ap (after_sleep (next_backoff mb b)) run,
          Retried-after_sleep i _ o (λ z. cc (z, failure)) r,
          end,
        )
  ]
    where
      i-ne : (i j : ℕ) → i ≤ j → i ≢ j → i + 1 ≤ j
      i-ne i j le ne = omega arith

  -- With `max_calls` zero, `Do` goes on until the function succeeds, and then returns nil: if call
  -- number `j` succeeds, it returns within `j + 1` rounds, and all calls but the last have failed.
  pub do_retry-unbounded :
      (initial_backoff max_backoff j fuel : ℕ)
      → f j ≡ none
      → j < fuel
      → (o : Outcome E) × (do_retry f max_backoff 0 initial_backoff fuel ≡ some o)
        × Retried f 0 o
        × (o.result ≡ none)
  unfolding do_retry
  do_retry-unbounded ib mb j fuel success enough =
      do_loop-unbounded mb fuel 0 0 ib j (omega arith) success (omega arith)
