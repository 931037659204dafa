-- ===== src/Sqs/Publisher/Steps.antt =====
-- queues/sqs/sqs.go, `makePublisher`: what a step that takes a case of the `select` has done.
use vice.Base.{
  ℕ, ◌≡◌, ◌⊎◌, inl, inr, false, true, List, [], ◌∷◌, some, Bytes, arith, ◌<◌, ◌++◌, length,
  List-cases,
}
use vice.Sqs.Service.{Service}
use vice.Sqs.Publisher.{
  Publisher, client_send, stop, chan_size, case_stop, case_message, case_timeout, at_exit, on_stop,
  on_message, on_timeout, step,
}

module _ {E : Type 0} (svc : Service E) (name : Bytes) (batch_size : ℕ) (s t : Publisher E) where
  -- The goroutine goes on while the channel holds messages, and returns otherwise.
  abbrev pub StopCase : Type 0
  StopCase =
      ((s.pending ≡ []) × (t ≡ record (at_exit svc name batch_size s) { exited = true }))
      ⊎ ((m : Bytes) × (rest : List Bytes) × (s.pending ≡ m ∷ rest) × (t ≡ s))

  pub step-case_stop :
      step svc name batch_size s case_stop ≡ some t
      → (s.stopping ≡ true) × (s.exited ≡ false) × StopCase
  unfolding step on_stop
  step-case_stop h = elim (List-cases s.pending) [
    | inl empty ↦ (ground arith, ground arith, inl (empty, ground arith))
    | inr (m, rest, e) ↦ (ground arith, ground arith, inr (m, rest, e, ground arith))
  ]

  pub step-case_message :
      (now : ℕ)
      → step svc name batch_size s (case_message now) ≡ some t
      → (m : Bytes) × (rest : List Bytes) × (s.pending ≡ m ∷ rest)
        × (s.exited ≡ false)
        × (t ≡ on_message svc name batch_size now m (record s { pending = rest }))
  unfolding step
  step-case_message now h = elim (List-cases s.pending) [
    | inl empty ↦ absurd (ground arith)
    | inr (m, rest, e) ↦ (m, rest, e, ground arith, ground arith)
  ]

  pub step-client_send :
      (m : Bytes)
      → step svc name batch_size s (client_send m) ≡ some t
      → (t ≡ record s { pending = s.pending ++ (m ∷ []) }) × (length s.pending < chan_size)
  unfolding step
  step-client_send m h = (ground arith, ground arith)

  pub step-stop :
      step svc name batch_size s stop ≡ some t
      → (t ≡ record s { stopping = true }) × (s.stopping ≡ false)
  unfolding step
  step-stop h = (ground arith, ground arith)

  pub step-case_timeout :
      step svc name batch_size s case_timeout ≡ some t
      → (t ≡ on_timeout svc name batch_size s) × (s.exited ≡ false)
  unfolding step
  step-case_timeout h = (ground arith, ground arith)
