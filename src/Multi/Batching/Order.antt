-- ===== src/Multi/Batching/Order.antt =====
-- queues/sqs/multi_writer.go, `makePublishers`: no message is lost, repeated or overtaken on the way
-- from the send channel to the dispatcher.
use vice.Base.{
  ℕ, ◌≡◌, refl, ap, sym, ◌∙◌, inl, inr, Bool, List, [], ◌∷◌, ◌++◌, some, Bytes, concat_map,
  concat_map-append, append_assoc, append-nil, map-append, >>=-eq-some,
}
use mathlib.Core.Option.{some-injective}
use vice.Sqs.Service.{Entry}
use vice.Sqs.Publisher.Order.{bodies}
use vice.Multi.Batching.{
  WriterMsg, Phase, selecting, handing, leaving, sleeping, returned, Batcher, new_batcher, Event,
  client_send, stop, case_stop, case_message, case_timeout, queue_takes, wakes, hand_over, step,
  run,
}
use vice.Multi.Batching.Steps.{
  step-client_send, step-stop, step-case_stop, step-case_message, step-case_timeout,
  step-queue_takes, step-wakes,
}

-- What the send channel accepts.
abbrev pub accepted_by : Event → List Bytes
accepted_by (client_send m) = m ∷ []
accepted_by _ = []

abbrev pub accepted : List Event → List Bytes
accepted = concat_map accepted_by

abbrev pub bodies_of : WriterMsg → List Bytes
bodies_of w = bodies w.batch

-- The messages of the batches that the dispatcher has taken.
abbrev pub handed_bodies : Batcher → List Bytes
handed_bodies s = concat_map bodies_of s.handed

-- The part of the batch that is still to be taken.
abbrev pub waiting : Phase → List Entry → List Entry
waiting selecting accum = accum
waiting (handing w) accum = w.batch
waiting (leaving w) accum = w.batch
waiting sleeping accum = []
waiting returned accum = []

-- Everything on its way, the oldest first.
abbrev pub carried : Batcher → List Bytes
carried s = handed_bodies s ++ (bodies (waiting s.phase s.accum) ++ s.pending)

carried_in :
    (p : Phase) (s : Batcher)
    → s.phase ≡ p
    → carried s ≡ handed_bodies s ++ (bodies (waiting p s.accum) ++ s.pending)
carried_in p s e = ap (λ q. handed_bodies s ++ (bodies (waiting q s.accum) ++ s.pending)) e

module _ (name : Bytes) (batch_size : ℕ) where
  hand_over-carried :
      (s : Batcher) → carried (hand_over name s) ≡ handed_bodies s ++ (bodies s.accum ++ s.pending)
  unfolding hand_over
  hand_over-carried s = refl

  message-carried :
      (s : Batcher) (now : ℕ) (m : Bytes) (rest : List Bytes)
      → s.pending ≡ m ∷ rest
      → handed_bodies s ++ (bodies (s.accum ++ (record { body = m; id = now } ∷ [])) ++ rest)
        ≡ handed_bodies s ++ (bodies s.accum ++ s.pending)
  message-carried s now m rest held = rw held (simp (map-append, append_assoc))

  moves_batch :
      (s : Batcher) (w : WriterMsg)
      → concat_map bodies_of (s.handed ++ (w ∷ [])) ++ s.pending
        ≡ handed_bodies s ++ (bodies w.batch ++ s.pending)
  moves_batch s w = simp (concat_map-append bodies_of s.handed, append_assoc, append-nil)

  step-carried :
      (s t : Batcher) (e : Event)
      → step name batch_size s e ≡ some t
      → carried t ≡ carried s ++ accepted_by e
  step-carried s t (client_send m) h =
      ap carried (step-client_send name batch_size s t m h) ∙ simp append_assoc
  step-carried s t stop h = ap carried (step-stop name batch_size s t h) ∙ sym (append-nil _)
  step-carried s t case_stop h =
      let (free, _, cases) = step-case_stop name batch_size s t h in
      elim cases [
        | inl (m, rest, held, e) ↦ ap carried e ∙ sym (append-nil _)
        | inr (inl (empty, none_left, e)) ↦
            ap carried e
            ∙ ap (λ l. handed_bodies s ++ (bodies l ++ s.pending)) (sym none_left)
            ∙ sym (carried_in selecting s free)
            ∙ sym (append-nil _)
        | inr (inr (empty, some_left, e)) ↦
            ap carried e ∙ sym (carried_in selecting s free) ∙ sym (append-nil _)
      ]
  step-carried s t (case_message now) h =
      let (free, (m, rest, held, cases)) = step-case_message name batch_size s t now h in
      let u : Batcher = record s {
        pending = rest;
        accum = s.accum ++ (record { body = m; id = now } ∷ []);
      } in
      let moved = message-carried s now m rest held ∙ sym (carried_in selecting s free) in
      elim cases [
        | inl (on, below, e) ↦
            ap carried e ∙ carried_in selecting u free ∙ moved ∙ sym (append-nil _)
        | inr (full, e) ↦ ap carried e ∙ hand_over-carried u ∙ moved ∙ sym (append-nil _)
      ]
  step-carried s t case_timeout h =
      let (free, cases) = step-case_timeout name batch_size s t h in
      elim cases [
        | inl e ↦ ap carried e ∙ sym (append-nil _)
        | inr (on, some_left, e) ↦
            ap carried e
            ∙ hand_over-carried s
            ∙ sym (carried_in selecting s free)
            ∙ sym (append-nil _)
      ]
  step-carried s t queue_takes h = elim (step-queue_takes name batch_size s t h) [
    | inl (w, has, e) ↦
        ap carried e ∙ moves_batch s w ∙ sym (carried_in (handing w) s has) ∙ sym (append-nil _)
    | inr (w, has, e) ↦
        ap carried e ∙ moves_batch s w ∙ sym (carried_in (leaving w) s has) ∙ sym (append-nil _)
  ]
  step-carried s t wakes h =
      let (asleep, e) = step-wakes name batch_size s t h in
      ap carried e ∙ sym (carried_in sleeping s asleep) ∙ sym (append-nil _)

  run_from-carried :
      (s t : Batcher) (es : List Event)
      → run name batch_size s es ≡ some t
      → carried t ≡ carried s ++ accepted es
  unfolding run
  run_from-carried s t [] h = ap carried (sym (some-injective _ _ h)) ∙ sym (append-nil _)
  run_from-carried s t (e ∷ es) h =
      let (u, now, later) = >>=-eq-some (step name batch_size s e) _ h in
      run_from-carried u t es later
      ∙ ap (λ l. l ++ accepted es) (step-carried s u e now)
      ∙ append_assoc (carried s) (accepted_by e) (accepted es)

  -- In every interleaving, the messages of the batches that the dispatcher has taken, then those
  -- of the batch that waits or is being handed over, then those in the channel's buffer, are
  -- exactly the messages that the channel has accepted, in the order in which it accepted them.
  pub batches-carried :
      (stopping : Bool) (t : Batcher) (es : List Event)
      → run name batch_size (new_batcher stopping) es ≡ some t
      → handed_bodies t ++ (bodies (waiting t.phase t.accum) ++ t.pending) ≡ accepted es
  unfolding new_batcher
  batches-carried stopping t es h = run_from-carried (new_batcher stopping) t es h
