-- ===== src/Backoff/Examples.antt =====
-- Runs of `Do`, and the theorems about it at inputs where their conditions hold.
use vice.Base.{ℕ, ◌≡◌, ◌≤◌, refl, Option, none, some, [], ◌∷◌, if◌then◌else◌, ltb, arith}
use vice.Backoff.{Outcome, do_retry}
use vice.Backoff.Calls.{Retried, EndsBy, do_retry-Retried, do_retry-unbounded}

-- As in backoff_test.go: two failures, then success.
abbrev third_succeeds : ℕ → Option ℕ
third_succeeds i = if ltb i 2 then some 7 else none

abbrev third : Outcome ℕ
third = record { result = none; calls = 3; sleeps = 200 ∷ 400 ∷ [] }

third_runs : do_retry third_succeeds 1000 3 100 3 ≡ some third
unfolding do_retry
third_runs = refl

-- With two calls allowed, the second error is returned.
second_fails :
    do_retry third_succeeds 1000 2 100 2
    ≡ some (record { result = some 7; calls = 2; sleeps = 200 ∷ [] })
unfolding do_retry
second_fails = refl

-- A negative number of calls is no limit of zero: the first error is returned.
negative_calls :
    do_retry third_succeeds 1000 0xffff_ffff_ffff_ffff 100 1
    ≡ some (record { result = some 7; calls = 1; sleeps = [] })
unfolding do_retry
negative_calls = refl

do_retry-Retried_example :
    (o : Outcome ℕ) × (do_retry third_succeeds 1000 3 100 3 ≡ some o)
    × Retried third_succeeds 0 o
    × EndsBy 3 o
    × (o.calls ≤ 3)
do_retry-Retried_example =
    do_retry-Retried third_succeeds 100 1000 3 3 (omega arith) (omega arith) (omega arith)

-- No limit on the calls.
do_retry-unbounded_example :
    (o : Outcome ℕ) × (do_retry third_succeeds 1000 0 100 5 ≡ some o)
    × Retried third_succeeds 0 o
    × (o.result ≡ none)
do_retry-unbounded_example = do_retry-unbounded third_succeeds 100 1000 2 5 refl (omega arith)

-- The first sleep is longer than the maximum.
abbrev over : Outcome ℕ
over = record { result = none; calls = 3; sleeps = 1200 ∷ 1000 ∷ [] }

over_runs : do_retry third_succeeds 1000 3 600 3 ≡ some over
unfolding do_retry
over_runs = refl
