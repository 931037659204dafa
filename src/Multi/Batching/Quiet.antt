-- ===== src/Multi/Batching/Quiet.antt =====
-- queues/sqs/multi_writer.go, `makePublishers`: what the goroutine's own steps leave alone.
use vice.Base.{◌≡◌, refl, ap, ◌∙◌, inl, inr, ℕ, [], ◌∷◌, ◌++◌, some, Bytes, arith}
use vice.Multi.Batching.{
  WriterMsg, leaving, returned, Batcher, Event, client_send, stop, case_stop, case_message,
  case_timeout, queue_takes, wakes, hand_over, in_hand, step,
}
use vice.Multi.Batching.Steps.{
  step-client_send, step-case_stop, step-case_message, step-case_timeout, step-queue_takes,
  step-wakes,
}

-- An event that neither stops the goroutine nor takes a batch.
abbrev pub IsQuiet : Event → Type 0
IsQuiet stop = ⊥
IsQuiet queue_takes = ⊥
IsQuiet _ = Unit

module _ (name : Bytes) (batch_size : ℕ) where
  hand_over-quiet :
      (s : Batcher)
      → ((hand_over name s).handed ≡ s.handed) × ((hand_over name s).stopping ≡ s.stopping)
  unfolding hand_over
  hand_over-quiet s = (refl, refl)

  abbrev Same : Batcher → Batcher → Type 0
  Same s t = (t.handed ≡ s.handed) × (t.stopping ≡ s.stopping)

  becomes : (s t u : Batcher) → t ≡ u → Same s u → Same s t
  becomes s t u e k =
      (ap (λ (b : Batcher). b.handed) e ∙ k.0, ap (λ (b : Batcher). b.stopping) e ∙ k.1)

  -- Such an event hands nothing over and does not touch the signal to stop.
  pub step-quiet :
      (s t : Batcher) (e : Event)
      → IsQuiet e
      → step name batch_size s e ≡ some t
      → (t.handed ≡ s.handed) × (t.stopping ≡ s.stopping)
  step-quiet s t (client_send m) q h =
      becomes s t _ (step-client_send name batch_size s t m h) (refl, refl)
  step-quiet s t stop q h = absurd q
  step-quiet s t case_stop q h = elim (step-case_stop name batch_size s t h).2 [
    | inl (m, rest, held, e) ↦ becomes s t s e (refl, refl)
    | inr (inl (empty, none_left, e)) ↦ becomes s t (record s { phase = returned }) e (refl, refl)
    | inr (inr (empty, some_left, e)) ↦
        becomes s t (record s { phase = leaving (record { batch = s.accum; name = name }) }) e
          (refl, refl)
  ]
  step-quiet s t (case_message now) q h =
      let (free, (m, rest, held, cases)) = step-case_message name batch_size s t now h in
      let u : Batcher = record s {
        pending = rest;
        accum = s.accum ++ (record { body = m; id = now } ∷ []);
      } in
      elim cases [
        | inl (on, below, e) ↦ becomes s t u e (refl, refl)
        | inr (full, e) ↦ becomes s t (hand_over name u) e (hand_over-quiet u)
      ]
  step-quiet s t case_timeout q h = elim (step-case_timeout name batch_size s t h).1 [
    | inl e ↦ becomes s t s e (refl, refl)
    | inr (on, some_left, e) ↦ becomes s t (hand_over name s) e (hand_over-quiet s)
  ]
  step-quiet s t queue_takes q h = absurd q
  step-quiet s t wakes q h =
      becomes s t (record s { phase = returned }) (step-wakes name batch_size s t h).1 (refl, refl)

  -- What the dispatcher takes is what the goroutine hands over.
  pub takes-in_hand :
      (s t : Batcher) (m : WriterMsg)
      → in_hand s.phase ≡ some m
      → step name batch_size s queue_takes ≡ some t
      → (t.handed ≡ s.handed ++ (m ∷ [])) × (t.stopping ≡ s.stopping)
  takes-in_hand s t m has h = elim (step-queue_takes name batch_size s t h) [
    | inl (w, e, same) ↦ (ground (arith, has, e, same), ground (arith, same))
    | inr (w, e, same) ↦ (ground (arith, has, e, same), ground (arith, same))
  ]
