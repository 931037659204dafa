-- ===== src/Multi/Batching/Bounds.antt =====
-- queues/sqs/multi_writer.go, `makePublishers`: the sizes of the batches.
use vice.Base.{
  ℕ, ◌+◌, ◌≤◌, ◌<◌, ◌≡◌, ◌≢◌, refl, subst, sym, inl, inr, Bool, List, [], ◌∷◌, ◌++◌, some, Bytes,
  arith, length, length-append, All, All-append, >>=-eq-some,
}
use mathlib.Core.Option.{some-injective}
use vice.Sqs.Service.{Entry}
use vice.Multi.Batching.{
  WriterMsg, Phase, selecting, handing, leaving, sleeping, returned, Batcher, new_batcher, Event,
  client_send, stop, case_stop, case_message, case_timeout, queue_takes, wakes, hand_over, step,
  run,
}
use vice.Multi.Batching.Steps.{
  step-client_send, step-stop, step-case_stop, step-case_message, step-case_timeout,
  step-queue_takes, step-wakes,
}

module _ (name : Bytes) (batch_size : ℕ) where
  -- A batch goes to the queue of this name and is never empty. Without batches it has one message;
  -- with them, it has at most `batch_size`.
  pub record Fits (w : WriterMsg) : Type 0 where
    pub named : w.name ≡ name
    pub not_empty : 0 < length w.batch
    pub single : batch_size ≡ 0 → length w.batch ≡ 1
    pub within : batch_size ≢ 0 → length w.batch ≤ batch_size

  -- What each phase keeps of the batch.
  abbrev pub PhaseFits : Phase → List Entry → Type 0
  PhaseFits selecting accum =
      (batch_size ≡ 0 → length accum ≡ 0) × (batch_size ≢ 0 → length accum < batch_size)
  PhaseFits (handing w) accum = Fits w
  PhaseFits (leaving w) accum = Fits w
  PhaseFits sleeping accum = Unit
  PhaseFits returned accum = Unit

  pub record IsBounded (s : Batcher) : Type 0 where
    pub phase_fits : PhaseFits s.phase s.accum
    pub handed_fit : All Fits s.handed

  in_phase : (p : Phase) (s : Batcher) → s.phase ≡ p → IsBounded s → PhaseFits p s.accum
  in_phase p s e v = subst (λ q. PhaseFits q s.accum) e v.phase_fits

  hand_over-IsBounded :
      (s : Batcher)
      → 0 < length s.accum
      → (batch_size ≡ 0 → length s.accum ≡ 1)
      → (batch_size ≢ 0 → length s.accum ≤ batch_size)
      → All Fits s.handed
      → IsBounded (hand_over name s)
  unfolding hand_over
  hand_over-IsBounded s not_empty single within all = record {
    phase_fits = record { named = refl; not_empty = not_empty; single = single; within = within };
    handed_fit = all;
  }

  step-IsBounded :
      (s t : Batcher) (e : Event) → IsBounded s → step name batch_size s e ≡ some t → IsBounded t
  step-IsBounded s t (client_send m) v h =
      rw (step-client_send name batch_size s t m h)
        (record { phase_fits = v.phase_fits; handed_fit = v.handed_fit })
  step-IsBounded s t stop v h =
      rw (step-stop name batch_size s t h)
        (record { phase_fits = v.phase_fits; handed_fit = v.handed_fit })
  step-IsBounded s t case_stop v h =
      let (free, _, cases) = step-case_stop name batch_size s t h in
      let (none_held, below) = in_phase selecting s free v in
      elim cases [
        | inl (m, rest, held, e) ↦ rw e v
        | inr (inl (empty, none_left, e)) ↦
            rw e (record { phase_fits = tt; handed_fit = v.handed_fit })
        | inr (inr (empty, some_left, e)) ↦ rw e (record {
          phase_fits = record {
            named = refl;
            not_empty = some_left;
            single = λ off. absurd (omega (arith, none_held off));
            within = λ on. omega (arith, below on);
          };
          handed_fit = v.handed_fit;
        })
      ]
  step-IsBounded s t (case_message now) v h =
      let (free, (m, rest, held, cases)) = step-case_message name batch_size s t now h in
      let (none_held, below) = in_phase selecting s free v in
      let entry : Entry = record { body = m; id = now } in
      let u : Batcher = record s { pending = rest; accum = s.accum ++ (entry ∷ []) } in
      let one_more : length u.accum ≡ length s.accum + 1 = length-append s.accum (entry ∷ []) in
      elim cases [
        | inl (on, less, e) ↦ rw e (record {
          phase_fits =
              subst (λ q. PhaseFits q u.accum) (sym free) ((λ off. absurd (on off)), λ _. less);
          handed_fit = v.handed_fit;
        })
        | inr (full, e) ↦ rw e (
            hand_over-IsBounded u (omega (arith, one_more))
              (λ off. omega (arith, one_more, none_held off))
              (λ on. omega (arith, one_more, below on)) v.handed_fit)
      ]
  step-IsBounded s t case_timeout v h =
      let (free, cases) = step-case_timeout name batch_size s t h in
      let (none_held, below) = in_phase selecting s free v in
      elim cases [
        | inl e ↦ rw e v
        | inr (on, some_left, e) ↦ rw e (
            hand_over-IsBounded s some_left (λ off. absurd (on off)) (λ _. omega (arith, below on))
              v.handed_fit)
      ]
  step-IsBounded s t queue_takes v h = elim (step-queue_takes name batch_size s t h) [
    | inl (w, has, e) ↦ rw e (record {
      phase_fits = ((λ off. refl), λ on. omega (arith, on));
      handed_fit = All-append Fits s.handed _ v.handed_fit (in_phase (handing w) s has v, tt);
    })
    | inr (w, has, e) ↦ rw e (record {
      phase_fits = tt;
      handed_fit = All-append Fits s.handed _ v.handed_fit (in_phase (leaving w) s has v, tt);
    })
  ]
  step-IsBounded s t wakes v h =
      rw (step-wakes name batch_size s t h).1
        (record { phase_fits = tt; handed_fit = v.handed_fit })

  run_from-IsBounded :
      (s t : Batcher) (es : List Event)
      → IsBounded s
      → run name batch_size s es ≡ some t
      → IsBounded t
  unfolding run
  run_from-IsBounded s t [] v h = subst IsBounded (some-injective _ _ h) v
  run_from-IsBounded s t (e ∷ es) v h =
      let (u, now, later) = >>=-eq-some (step name batch_size s e) _ h in
      run_from-IsBounded u t es (step-IsBounded s u e v now) later

  -- In every interleaving each batch that the dispatcher takes is named for the queue and is not
  -- empty, the last one included; it has one message without batches, and at most `batch_size`
  -- with them.
  pub batches-Fit :
      (stopping : Bool) (t : Batcher) (es : List Event)
      → run name batch_size (new_batcher stopping) es ≡ some t
      → All Fits t.handed
  unfolding new_batcher
  batches-Fit stopping t es h =
      (run_from-IsBounded (new_batcher stopping) t es
        (record { phase_fits = ((λ off. refl), λ on. omega (arith, on)); handed_fit = tt })
        h).handed_fit
