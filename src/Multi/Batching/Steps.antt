-- ===== src/Multi/Batching/Steps.antt =====
-- queues/sqs/multi_writer.go, `makePublishers`: what a step of the goroutine has done.
use vice.Base.{
  ℕ, ◌≡◌, ◌≢◌, ◌≤◌, refl, sym, ◌⊎◌, inl, inr, true, List, [], ◌∷◌, ◌++◌, Option, some, Bytes, arith,
  ◌<◌, length, ltb, ◌==◌, length-eq-zero, ◌||◌, List-cases, Bool-cases,
}
use mathlib.Core.Option.{some-injective}
use vice.Multi.Batching.{
  WriterMsg, Phase, selecting, handing, leaving, sleeping, returned, Batcher, client_send, stop,
  case_stop, case_message, case_timeout, queue_takes, wakes, selects, taken, woken, hand_over,
  leave, on_stop, on_message, on_timeout, step,
}

selects-eq-some :
    (p : Phase) (next : Option Batcher) {t : Batcher}
    → selects p next ≡ some t
    → (p ≡ selecting) × (next ≡ some t)
selects-eq-some selecting next h = (refl, h)
selects-eq-some (handing w) next h = absurd (ground arith)
selects-eq-some (leaving w) next h = absurd (ground arith)
selects-eq-some sleeping next h = absurd (ground arith)
selects-eq-some returned next h = absurd (ground arith)

-- A send on `queue` that is done.
abbrev pub Taken : Phase → Batcher → Batcher → Type 0
Taken p s t =
    ((w : WriterMsg) × (p ≡ handing w)
      × (t ≡ record s { accum = []; phase = selecting; handed = s.handed ++ (w ∷ []) }))
    ⊎ ((w : WriterMsg) × (p ≡ leaving w)
        × (t ≡ record s { phase = sleeping; handed = s.handed ++ (w ∷ []) }))

taken-Taken : (p : Phase) (s t : Batcher) → taken p s ≡ some t → Taken p s t
unfolding taken
taken-Taken selecting s t h = absurd (ground arith)
taken-Taken (handing w) s t h = inl (w, refl, sym (some-injective _ _ h))
taken-Taken (leaving w) s t h = inr (w, refl, sym (some-injective _ _ h))
taken-Taken sleeping s t h = absurd (ground arith)
taken-Taken returned s t h = absurd (ground arith)

woken-eq-some :
    (p : Phase) (s t : Batcher)
    → woken p s ≡ some t
    → (p ≡ sleeping) × (t ≡ record s { phase = returned })
unfolding woken
woken-eq-some selecting s t h = absurd (ground arith)
woken-eq-some (handing w) s t h = absurd (ground arith)
woken-eq-some (leaving w) s t h = absurd (ground arith)
woken-eq-some sleeping s t h = (refl, sym (some-injective _ _ h))
woken-eq-some returned s t h = absurd (ground arith)

module _ (name : Bytes) (batch_size : ℕ) (s t : Batcher) where
  pub step-client_send :
      (m : Bytes)
      → step name batch_size s (client_send m) ≡ some t
      → t ≡ record s { pending = s.pending ++ (m ∷ []) }
  unfolding step
  step-client_send m h = ground arith

  pub step-stop : step name batch_size s stop ≡ some t → t ≡ record s { stopping = true }
  unfolding step
  step-stop h = ground arith

  -- The goroutine goes on while the channel holds messages; otherwise it hands over the rest of
  -- the batch, or returns if there is none.
  abbrev pub StopCase : Type 0
  StopCase =
      ((m : Bytes) × (rest : List Bytes) × (s.pending ≡ m ∷ rest) × (t ≡ s))
      ⊎ (((s.pending ≡ []) × (s.accum ≡ []) × (t ≡ record s { phase = returned }))
          ⊎ ((s.pending ≡ [])
              × (0 < length s.accum)
              × (t ≡ record s { phase = leaving (record { batch = s.accum; name = name }) })))

  StopCase-leave : s.pending ≡ [] → t ≡ leave name s → StopCase
  unfolding leave
  StopCase-leave empty e = elim (Bool-cases (length s.accum == 0)) [
    | inl none_left ↦
        inr (inl (empty, length-eq-zero s.accum (ground arith), ground (arith, e, none_left)))
    | inr some_left ↦ inr (inr (empty, ground arith, ground (arith, e, some_left)))
  ]

  pub step-case_stop :
      step name batch_size s case_stop ≡ some t
      → (s.phase ≡ selecting) × (s.stopping ≡ true) × StopCase
  unfolding step on_stop
  step-case_stop h =
      let (free, e) = selects-eq-some s.phase _ h in
      elim (List-cases s.pending) [
        | inl empty ↦ (free, ground (arith, e), StopCase-leave empty (ground (arith, e, empty)))
        | inr (m, rest, held) ↦
            (free, ground (arith, e), inl (m, rest, held, ground (arith, e, held)))
      ]

  -- The batch takes the message; it is handed over once it is full, or at once without batches.
  abbrev pub MessageCase : ℕ → Type 0
  MessageCase now =
      (m : Bytes) × (rest : List Bytes) × (s.pending ≡ m ∷ rest)
      × (let u : Batcher = record s {
        pending = rest;
        accum = s.accum ++ (record { body = m; id = now } ∷ []);
      } in
          ((batch_size ≢ 0) × (length u.accum < batch_size) × (t ≡ u))
          ⊎ (((batch_size ≡ 0) ⊎ (batch_size ≤ length u.accum)) × (t ≡ hand_over name u)))

  pub step-case_message :
      (now : ℕ)
      → step name batch_size s (case_message now) ≡ some t
      → (s.phase ≡ selecting) × MessageCase now
  unfolding step on_message
  step-case_message now h =
      let (free, e) = selects-eq-some s.phase _ h in
      elim (List-cases s.pending) [
        | inl empty ↦ absurd (ground (arith, e, empty))
        | inr (m, rest, held) ↦ (
          free,
          (
            m,
            rest,
            held,
            let u : Batcher = record s {
              pending = rest;
              accum = s.accum ++ (record { body = m; id = now } ∷ []);
            } in
                let same : t ≡ on_message name batch_size now m (record s { pending = rest }) =
                  ground (arith, e, held) in
                elim (Bool-cases (batch_size == 0)) [
                  | inl off ↦ inr (inl (ground arith), ground (arith, same, off))
                  | inr on ↦ elim (Bool-cases (ltb (length u.accum) batch_size)) [
                    | inl below ↦ inl (ground arith, ground arith, ground (arith, same, on, below))
                    | inr full ↦ inr (inr (ground arith), ground (arith, same, on, full))
                  ]
                ],
          ),
        )
      ]

  -- After the interval, a batch that is not empty is handed over.
  abbrev pub TimeoutCase : Type 0
  TimeoutCase = (t ≡ s) ⊎ ((batch_size ≢ 0) × (0 < length s.accum) × (t ≡ hand_over name s))

  pub step-case_timeout :
      step name batch_size s case_timeout ≡ some t → (s.phase ≡ selecting) × TimeoutCase
  unfolding step on_timeout
  step-case_timeout h =
      let (free, e) = selects-eq-some s.phase _ h in
      elim (Bool-cases ((batch_size == 0) || (length s.accum == 0))) [
        | inl none_due ↦ (free, inl (ground (arith, e, none_due)))
        | inr due ↦ (free, inr (ground arith, ground arith, ground (arith, e, due)))
      ]

  pub step-queue_takes : step name batch_size s queue_takes ≡ some t → Taken s.phase s t
  unfolding step
  step-queue_takes h = taken-Taken s.phase s t h

  pub step-wakes :
      step name batch_size s wakes ≡ some t
      → (s.phase ≡ sleeping) × (t ≡ record s { phase = returned })
  unfolding step
  step-wakes h = woken-eq-some s.phase s t h
