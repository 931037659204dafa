-- ===== src/Nsq/Consuming.antt =====
-- queues/nsq/nsq.go, `makeConsumer`: the handler behind a receive channel, which finishes a message
-- and then hands its body to the channel. The library calls it for one message at a time.
use vice.Base.{
  ◌≡◌, refl, ap, subst, sym, ◌∙◌, inl, inr, List, [], ◌∷◌, ◌++◌, Option, none, some, Bytes, arith,
  ◌>>=◌, >>=-eq-some, concat_map, append_assoc, append-nil, Option-cases,
}
use mathlib.Core.Option.{some-injective}

pub record Consumer : Type 0 where
  pub holding : Option Bytes  -- the handler waits for the channel to take this body
  pub finished : List Bytes  -- the bodies of the messages that were acknowledged
  pub delivered : List Bytes  -- taken by the channel

unfoldable pub new_consumer : Consumer
new_consumer = record { holding = none; finished = []; delivered = [] }

pub data Event : Type 0 where
  handle : Bytes → Event
  chan_takes : Event

-- `none`: the event cannot happen in this state.
unfoldable pub step : Consumer → Event → Option Consumer
step s (handle body) = elim s.holding [
  | some b ↦ none
  | none ↦ some (record s { holding = some body; finished = s.finished ++ (body ∷ []) })
]
step s chan_takes = elim s.holding [
  | some b ↦ some (record s { holding = none; delivered = s.delivered ++ (b ∷ []) })
  | none ↦ none
]

unfoldable pub run : Consumer → List Event → Option Consumer
unfolding step
run s [] = some s
run s (e ∷ es) = step s e >>= λ t. run t es

-- The bodies of the messages that the library has handed over.
abbrev pub handled_by : Event → List Bytes
handled_by (handle body) = body ∷ []
handled_by chan_takes = []

abbrev pub handled : List Event → List Bytes
handled = concat_map handled_by

abbrev pub held : Option Bytes → List Bytes
held none = []
held (some b) = b ∷ []

pub record IsFinishedFirst (s : Consumer) (input : List Bytes) : Type 0 where
  pub all_finished : s.finished ≡ input
  pub in_order : s.delivered ++ held s.holding ≡ s.finished

step-IsFinishedFirst :
    (s t : Consumer) (e : Event) (input : List Bytes)
    → IsFinishedFirst s input
    → step s e ≡ some t
    → IsFinishedFirst t (input ++ handled_by e)
unfolding step
step-IsFinishedFirst s t (handle body) input k h = elim (Option-cases s.holding) [
  | inl free ↦
      let u : Consumer = record s { holding = some body; finished = s.finished ++ (body ∷ []) } in
      let same : u ≡ t = ground (arith, h, free) in
      let order : s.delivered ≡ s.finished =
        sym (append-nil _) ∙ subst (λ x. s.delivered ++ held x ≡ s.finished) free k.in_order in
      subst (λ v. IsFinishedFirst v (input ++ (body ∷ []))) same
        (record {
          all_finished = ap (λ l. l ++ (body ∷ [])) k.all_finished;
          in_order = ap (λ l. l ++ (body ∷ [])) order;
        })
  | inr (b, busy) ↦ absurd (ground (arith, h, busy))
]
step-IsFinishedFirst s t chan_takes input k h = elim (Option-cases s.holding) [
  | inl free ↦ absurd (ground (arith, h, free))
  | inr (b, busy) ↦
      let u : Consumer = record s { holding = none; delivered = s.delivered ++ (b ∷ []) } in
      let same : u ≡ t = ground (arith, h, busy) in
      rw append-nil (
        subst (λ v. IsFinishedFirst v input) same
          (record {
            all_finished = k.all_finished;
            in_order =
                append-nil _ ∙ subst (λ x. s.delivered ++ held x ≡ s.finished) busy k.in_order;
          }))
]

run_from-IsFinishedFirst :
    (s t : Consumer) (es : List Event) (input : List Bytes)
    → IsFinishedFirst s input
    → run s es ≡ some t
    → IsFinishedFirst t (input ++ handled es)
unfolding run
run_from-IsFinishedFirst s t [] input k h =
    rw append-nil (subst (λ u. IsFinishedFirst u input) (some-injective _ _ h) k)
run_from-IsFinishedFirst s t (e ∷ es) input k h =
    let (u, now, later) = >>=-eq-some (step s e) _ h in
    rw (← append_assoc input (handled_by e) (handled es)) (
      run_from-IsFinishedFirst u t es (input ++ handled_by e)
        (step-IsFinishedFirst s u e input k now) later)

-- In every interleaving each message that the library has handed over is acknowledged, at once and
-- in order, and the receive channel has taken their bodies in that order, but for at most the last.
pub run-IsFinishedFirst :
    (t : Consumer) (es : List Event) → run new_consumer es ≡ some t → IsFinishedFirst t (handled es)
unfolding new_consumer
run-IsFinishedFirst t es h =
    run_from-IsFinishedFirst new_consumer t es [] (record { all_finished = refl; in_order = refl })
      h
