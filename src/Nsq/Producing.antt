-- ===== src/Nsq/Producing.antt =====
-- queues/nsq/nsq.go, `makeProducer`: the goroutine behind a send channel. The channel has no buffer,
-- so a client's send and the goroutine's receive are one event, which includes what the calls of
-- `Publish` return.
use vice.Base.{
  ℕ, ◌<◌, ◌≡◌, ◌≢◌, Bool, true, false, not, ◌&&◌, List, [], ◌∷◌, ◌++◌, Option, none, some, Bytes,
  if◌then◌else◌, ◌>>=◌,
}
use vice.Transport.{Err}
use vice.Backoff.{Outcome, do_retry}

-- A message that was taken from the channel, and what `backoff.Do` did with it.
pub record Publication (C : Type 0) : Type 0 where
  pub body : Bytes
  pub outcome : Outcome C

pub record Producer (C : Type 0) : Type 0 where
  pub stopping : Bool  -- stopProdChan is closed
  pub publications : List (Publication C)
  pub reporting : Option (Err C)  -- the send on errChan that it stands at, if it does
  pub errs : List (Err C)
  pub producer_stopped : Bool
  pub exited : Bool

-- A send comes with what call number `i` of `Publish` would return. `err_takes`: the error channel,
-- which has a buffer of ten, takes the error; that may be never.
pub data Event (C : Type 0) : Type 0 where
  client_send : (message : Bytes) (results : ℕ → Option C) → Event C
  err_takes : Event C
  stop : Event C
  case_stop : Event C

-- In nanoseconds.
abbrev pub one_second : ℕ
one_second = 1000000000

abbrev pub ten_minutes : ℕ
ten_minutes = 600000000000

-- backoff.Do(1*time.Second, 10*time.Minute, 10, f), with a round of its loop for each call
abbrev pub publish_with : {C : Type 0} → (ℕ → Option C) → Option (Outcome C)
publish_with results = do_retry results ten_minutes 10 one_second 10

-- It has not returned, and stands at no send of an error.
unfoldable pub is_free : {C : Type 0} → Producer C → Bool
is_free s = elim s.reporting [ none ↦ not s.exited | some e ↦ false ]

module _ {C : Type 0} (name : Bytes) where
  abbrev pub produce_err : Bytes → Option C → Option (Err C)
  produce_err message none = none
  produce_err message (some e) = some (record { message = message; name = name; err = e })

  -- `none`: the event cannot happen in this state.
  unfoldable pub step : Producer C → Event C → Option (Producer C)
  unfolding is_free
  step s (client_send m results) =
      if is_free s
      then (publish_with results >>= λ o. some (record s {
        publications = s.publications ++ (record { body = m; outcome = o } ∷ []);
        reporting = produce_err m o.result;
      }))
      else none
  step s err_takes = elim s.reporting [
    | none ↦ none
    | some e ↦ some (record s { reporting = none; errs = s.errs ++ (e ∷ []) })
  ]
  step s stop = if s.stopping then none else some (record s { stopping = true })
  step s case_stop =
      if is_free s && s.stopping
      then some (record s { producer_stopped = true; exited = true })
      else none

  -- How the calls for a message end: one of the first ten calls of `Publish` succeeds, or all ten
  -- fail; `report` is the error that is then to be reported.
  pub data IsSettled (m : Bytes) (results : ℕ → Option C) (report : Option (Err C)) : Type 0 where
    published : (j : ℕ) → j < 10 → results j ≡ none → report ≡ none → IsSettled m results report
    given_up :
        (e : C)
        → ((j : ℕ) → j < 10 → results j ≢ none)
        → results 9 ≡ some e
        → report ≡ some (record { message = m; name = name; err = e })
        → IsSettled m results report

  -- A goroutine with an error to report stands still until the error channel takes it.
  pub record StandsUntilTaken (s : Producer C) (e : Err C) : Type 0 where
    pub no_send : (m : Bytes) (results : ℕ → Option C) → step s (client_send m results) ≡ none
    pub no_return : step s case_stop ≡ none
    pub taken : step s err_takes ≡ some (record s { reporting = none; errs = s.errs ++ (e ∷ []) })
