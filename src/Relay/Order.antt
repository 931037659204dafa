-- ===== src/Relay/Order.antt =====
-- queues/redis/redis.go and queues/nats/nats.go, `makePublisher`: no message is lost, repeated or
-- overtaken on the way to the queue, and every failure is reported.
use vice.Base.{
  ◌≡◌, refl, ap, subst, sym, ◌∙◌, inl, inr, Bool, List, [], ◌∷◌, ◌++◌, map, Option, some, Bytes,
  concat_map, concat_map-append, append_assoc, append-nil, map-append, >>=-eq-some,
}
use mathlib.Core.Option.{some-injective}
use vice.Transport.{Err}
use vice.Relay.Steps.{step-client_send, step-stop, step-case_stop, step-case_message}
use vice.Relay.{
  Attempt, Relay, Event, client_send, stop, case_stop, case_message, new_relay, report, on_message,
  step, run,
}

abbrev pub attempted : {C : Type 0} → List (Attempt C) → List Bytes
attempted = map (λ a. a.message)

abbrev pub accepted_by : {C : Type 0} → Event C → List Bytes
accepted_by (client_send m) = m ∷ []
accepted_by _ = []

abbrev pub accepted : {C : Type 0} → List (Event C) → List Bytes
accepted = concat_map accepted_by

-- The errors of the sends that failed, each with its message.
abbrev pub failures : {C : Type 0} → Bytes → List (Attempt C) → List (Err C)
failures name = concat_map (λ a. report name a.message a.result)

-- What the channel has accepted, from `before` on, is sent in order or waits in order, and the
-- errors reported are those of the sends that failed.
pub record Follows {C : Type 0} (name : Bytes) (s : Relay C) (input : List Bytes) : Type 0 where
  pub in_order : attempted s.attempts ++ s.pending ≡ input
  pub reported : s.errs ≡ failures name s.attempts

module _ {C : Type 0} (name : Bytes) where
  on_message-Follows :
      (result : Option C) (m : Bytes) (rest : List Bytes) (s : Relay C) (input : List Bytes)
      → s.pending ≡ m ∷ rest
      → Follows name s input
      → Follows name (on_message name result m (record s { pending = rest })) input
  unfolding on_message
  on_message-Follows result m rest s input held f = record {
    in_order =
        simp (map-append, append_assoc)
          (ap (λ l. attempted s.attempts ++ l) (sym held) ∙ f.in_order);
    reported =
        ap (λ l. l ++ report name m result) f.reported
        ∙ simp (concat_map-append (λ (a : Attempt C). report name a.message a.result), append-nil);
  }

  step-Follows :
      (s t : Relay C) (e : Event C) (input : List Bytes)
      → Follows name s input
      → step name s e ≡ some t
      → Follows name t (input ++ accepted_by e)
  step-Follows s t (client_send m) input f h = rw (step-client_send name s t m h) (record {
    in_order = sym (append_assoc _ s.pending _) ∙ ap (λ l. l ++ (m ∷ [])) f.in_order;
    reported = f.reported;
  })
  step-Follows s t stop input f h =
      rw (step-stop name s t h, append-nil)
        (record { in_order = f.in_order; reported = f.reported })
  step-Follows s t (case_stop c) input f h = elim (step-case_stop name s t c h).1 [
    | inl e ↦ rw (e, append-nil) f
    | inr (e, _) ↦ rw (e, append-nil) (record { in_order = f.in_order; reported = f.reported })
  ]
  step-Follows s t (case_message r) input f h =
      let (m, rest, held, _, e) = step-case_message name s t r h in
      rw (e, append-nil) (on_message-Follows r m rest s input held f)

  run_from-Follows :
      (s t : Relay C) (es : List (Event C)) (input : List Bytes)
      → Follows name s input
      → run name s es ≡ some t
      → Follows name t (input ++ accepted es)
  unfolding run
  run_from-Follows s t [] input f h =
      rw append-nil (subst (λ u. Follows name u input) (some-injective _ _ h) f)
  run_from-Follows s t (e ∷ es) input f h =
      let (u, now, later) = >>=-eq-some (step name s e) _ h in
      rw (← append_assoc input (accepted_by e) (accepted es))
        (run_from-Follows u t es (input ++ accepted_by e) (step-Follows s u e input f now) later)

  -- In every interleaving, the messages sent so far and then those in the buffer are exactly the
  -- messages that the channel has accepted, in that order, and the error channel has seen exactly
  -- the errors of the sends that failed, each with its message and the name of the queue.
  pub run-Follows :
      (stopping : Bool) (t : Relay C) (es : List (Event C))
      → run name (new_relay stopping) es ≡ some t
      → Follows name t (accepted es)
  unfolding new_relay
  run-Follows stopping t es h =
      run_from-Follows (new_relay stopping) t es [] (record { in_order = refl; reported = refl }) h
