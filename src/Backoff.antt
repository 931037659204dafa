-- ===== src/Backoff.antt =====
-- backoff/backoff.go. An int64 (`time.Duration`, `int`) is its bit pattern, a number below 2 ^ 64;
-- the callback is the sequence of what its calls return, and a log line is left out.
pub mod Calls
mod Examples
use vice.Base.{
  ℕ, zero, suc, ◌+◌, ◌*◌, ◌%◌, ◌^◌, Bool, not, ◌&&◌, List, [], ◌∷◌, Option, none, some, ltb, leb,
  ◌==◌, if◌then◌else◌,
}

abbrev pub int64 : ℕ → ℕ
int64 n = n % 2 ^ 64

-- Moves the signed order of patterns to the order of numbers.
abbrev pub signed : ℕ → ℕ
signed n = int64 (n + 2 ^ 63)

-- What a call of `Do` did: the error that it returned (none for nil), how often it called the
-- function, and how long it slept between the calls.
pub record Outcome {ℓ} (E : Type ℓ) : Type ℓ where
  pub result : Option E
  pub calls : ℕ
  pub sleeps : List ℕ

abbrev pub after_sleep {ℓ} : {E : Type ℓ} → ℕ → Option (Outcome E) → Option (Outcome E)
after_sleep b none = none
after_sleep b (some o) = some (record o { sleeps = b ∷ o.sleeps })

-- The next delay.
unfoldable pub next_backoff : ℕ → ℕ → ℕ
next_backoff max_backoff backoff =
    if ltb (signed max_backoff) (signed backoff) && not (max_backoff == 0)
    then max_backoff
    else int64 (backoff * 2)

-- Whether the loop gives up after that many failed calls.
abbrev pub gives_up : ℕ → ℕ → Bool
gives_up max_calls calls = leb (signed max_calls) (signed calls) && not (max_calls == 0)

module _ {ℓ} {E : Type ℓ} (f : ℕ → Option E) (max_backoff max_calls : ℕ) where
  -- The loop of `Do` before call number `i`, on fuel; `none` means that the fuel ran out.
  pub do_loop : ℕ → ℕ → ℕ → ℕ → Option (Outcome E)
  do_loop zero i calls backoff = none
  do_loop (suc fuel) i calls backoff = elim (f i) [
    | none ↦ some (record { result = none; calls = i + 1; sleeps = [] })
    | some e ↦
        let calls' = int64 (calls + 1) in
        let backoff' = next_backoff max_backoff backoff in
        let rest = after_sleep backoff' (do_loop fuel (i + 1) calls' backoff') in
        if gives_up max_calls calls'
        then some (record { result = some e; calls = i + 1; sleeps = [] })
        else rest
  ]

  unfoldable pub do_retry : ℕ → ℕ → Option (Outcome E)
  unfolding do_loop next_backoff
  do_retry initial_backoff fuel = do_loop fuel 0 0 initial_backoff
