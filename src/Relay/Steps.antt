-- ===== src/Relay/Steps.antt =====
-- queues/redis/redis.go and queues/nats/nats.go, `makePublisher`: what a step has done.
use vice.Base.{
  ◌≡◌, refl, ◌⊎◌, inl, inr, Bool, true, false, List, [], ◌∷◌, ◌++◌, Option, some, Bytes, arith,
  List-cases,
}
use vice.Relay.{Relay, client_send, stop, case_stop, case_message, on_message, step}

module _ {C : Type 0} (name : Bytes) (s t : Relay C) where
  pub step-client_send :
      (m : Bytes)
      → step name s (client_send m) ≡ some t
      → t ≡ record s { pending = s.pending ++ (m ∷ []) }
  unfolding step
  step-client_send m h = ground arith

  pub step-stop : step name s stop ≡ some t → t ≡ record s { stopping = true }
  unfolding step
  step-stop h = ground arith

  -- It stays, with messages waiting on a connection, or returns.
  pub step-case_stop :
      (connected : Bool)
      → step name s (case_stop connected) ≡ some t
      → (s.exited ≡ false)
        × ((t ≡ s) ⊎ ((t ≡ record s { exited = true }) × ((s.pending ≡ []) ⊎ (connected ≡ false))))
  unfolding step
  step-case_stop connected h = elim (List-cases s.pending) [
    | inl empty ↦ (ground arith, inr (ground arith, inl empty))
    | inr (m, rest, e) ↦ (ground arith, waits connected m rest e h)
  ]
    where
      waits :
          (connected : Bool) (m : Bytes) (rest : List Bytes)
          → s.pending ≡ m ∷ rest
          → step name s (case_stop connected) ≡ some t
          → (t ≡ s) ⊎ ((t ≡ record s { exited = true }) × ((s.pending ≡ []) ⊎ (connected ≡ false)))
      waits true m rest e h = inl (ground arith)
      waits false m rest e h = inr (ground arith, inr refl)

  pub step-case_message :
      (result : Option C)
      → step name s (case_message result) ≡ some t
      → (m : Bytes) × (rest : List Bytes) × (s.pending ≡ m ∷ rest)
        × (s.exited ≡ false)
        × (t ≡ on_message name result m (record s { pending = rest }))
  unfolding step
  step-case_message result h = elim (List-cases s.pending) [
    | inl empty ↦ absurd (ground arith)
    | inr (m, rest, e) ↦ (m, rest, e, ground arith, ground arith)
  ]
