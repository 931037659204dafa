-- ===== src/Rabbitmq/Consuming/Order.antt =====
-- queues/rabbitmq/rabbitmq.go, `makeSubscriber`: deliveries, and their acknowledgements after them.
use vice.Base.{
  ℕ, zero, suc, ◌≡◌, refl, ap, subst, sym, ◌∙◌, ◌⊎◌, inl, inr, Bool, true, List, [], ◌∷◌, ◌++◌,
  Option, none, some, arith, >>=-eq-some, append_assoc, append-nil, replicate,
}
use mathlib.Core.Option.{some-injective}
use vice.Rabbitmq.Consuming.{
  Delivery, Phase, selecting, sending, acking, returned, Subscriber, new_subscriber, Event, stop,
  case_msgs, case_stop, chan_takes, acks, zero_delivery, received, step, run, received_by,
  all_received, in_hand, unacked, IsAcked,
}

phase_cases :
    (p : Phase)
    → (p ≡ selecting)
      ⊎ (((d : Delivery) × (p ≡ sending d)) ⊎ (((d : Delivery) × (p ≡ acking d)) ⊎ (p ≡ returned)))
phase_cases selecting = inl refl
phase_cases (sending d) = inr (inl (d, refl))
phase_cases (acking d) = inr (inr (inl (d, refl)))
phase_cases returned = inr (inr (inr refl))

step-case_msgs :
    (s t : Subscriber) (d : Option Delivery)
    → step s (case_msgs d) ≡ some t
    → (s.phase ≡ selecting) × (t ≡ record s { phase = sending (received d) })
unfolding step
step-case_msgs s t d h = elim (phase_cases s.phase) [
  | inl e ↦ (e, ground arith)
  | inr (inl (c, e)) ↦ absurd (ground arith)
  | inr (inr (inl (c, e))) ↦ absurd (ground arith)
  | inr (inr (inr e)) ↦ absurd (ground arith)
]

step-case_stop :
    (s t : Subscriber)
    → step s case_stop ≡ some t
    → (s.phase ≡ selecting) × (s.stopping ≡ true) × (t ≡ record s { phase = returned })
unfolding step
step-case_stop s t h = elim (phase_cases s.phase) [
  | inl e ↦ (e, ground arith, ground arith)
  | inr (inl (c, e)) ↦ absurd (ground arith)
  | inr (inr (inl (c, e))) ↦ absurd (ground arith)
  | inr (inr (inr e)) ↦ absurd (ground arith)
]

step-chan_takes :
    (s t : Subscriber)
    → step s chan_takes ≡ some t
    → (d : Delivery) × (s.phase ≡ sending d)
      × (t ≡ record s { phase = acking d; delivered = s.delivered ++ (d ∷ []) })
unfolding step
step-chan_takes s t h = elim (phase_cases s.phase) [
  | inl e ↦ absurd (ground arith)
  | inr (inl (c, e)) ↦ (c, e, ground arith)
  | inr (inr (inl (c, e))) ↦ absurd (ground arith)
  | inr (inr (inr e)) ↦ absurd (ground arith)
]

step-acks :
    (s t : Subscriber)
    → step s acks ≡ some t
    → (d : Delivery) × (s.phase ≡ acking d)
      × (t ≡ record s { phase = selecting; acked = s.acked ++ (d ∷ []) })
unfolding step
step-acks s t h = elim (phase_cases s.phase) [
  | inl e ↦ absurd (ground arith)
  | inr (inl (c, e)) ↦ absurd (ground arith)
  | inr (inr (inl (c, e))) ↦ (c, e, ground arith)
  | inr (inr (inr e)) ↦ absurd (ground arith)
]

step-stop : (s t : Subscriber) → step s stop ≡ some t → t ≡ record s { stopping = true }
unfolding step
step-stop s t h = ground arith

-- A state in this phase whose lists fit.
acked_in :
    (p : Phase) (s : Subscriber) (input : List Delivery)
    → s.phase ≡ p
    → IsAcked s input
    → (s.delivered ++ in_hand p ≡ input) × (s.acked ++ unacked p ≡ s.delivered)
acked_in p s input e k = (
  subst (λ q. s.delivered ++ in_hand q ≡ input) e k.in_order,
  subst (λ q. s.acked ++ unacked q ≡ s.delivered) e k.acked_after,
)

step-IsAcked :
    (s t : Subscriber) (e : Event) (input : List Delivery)
    → IsAcked s input
    → step s e ≡ some t
    → IsAcked t (input ++ received_by e)
step-IsAcked s t stop input k h =
    rw (step-stop s t h, append-nil) (record { in_order = k.in_order; acked_after = k.acked_after })
step-IsAcked s t (case_msgs d) input k h =
    let (free, same) = step-case_msgs s t d h in
    let (order, after) = acked_in selecting s input free k in
    rw same (record {
      in_order = ap (λ l. l ++ (received d ∷ [])) (sym (append-nil _) ∙ order);
      acked_after = after;
    })
step-IsAcked s t case_stop input k h =
    let (free, _, same) = step-case_stop s t h in
    let (order, after) = acked_in selecting s input free k in
    rw (same, append-nil) (record { in_order = order; acked_after = after })
step-IsAcked s t chan_takes input k h =
    let (d, has, same) = step-chan_takes s t h in
    let (order, after) = acked_in (sending d) s input has k in
    rw (same, append-nil)
      (record {
        in_order = append-nil _ ∙ order;
        acked_after = ap (λ l. l ++ (d ∷ [])) (sym (append-nil _) ∙ after);
      })
step-IsAcked s t acks input k h =
    let (d, has, same) = step-acks s t h in
    let (order, after) = acked_in (acking d) s input has k in
    rw (same, append-nil) (record { in_order = order; acked_after = append-nil _ ∙ after })

run_from-IsAcked :
    (s t : Subscriber) (es : List Event) (input : List Delivery)
    → IsAcked s input
    → run s es ≡ some t
    → IsAcked t (input ++ all_received es)
unfolding run
run_from-IsAcked s t [] input k h =
    rw append-nil (subst (λ u. IsAcked u input) (some-injective _ _ h) k)
run_from-IsAcked s t (e ∷ es) input k h =
    let (u, now, later) = >>=-eq-some (step s e) _ h in
    rw (← append_assoc input (received_by e) (all_received es))
      (run_from-IsAcked u t es (input ++ received_by e) (step-IsAcked s u e input k now) later)

-- In every interleaving the channel has taken the deliveries in the order in which they were
-- received, all but at most one that is in hand; and all that it has taken were acknowledged, in
-- order and after it took them, but for at most the last.
pub run-IsAcked :
    (stopping : Bool) (t : Subscriber) (es : List Event)
    → run (new_subscriber stopping) es ≡ some t
    → IsAcked t (all_received es)
unfolding new_subscriber
run-IsAcked stopping t es h =
    run_from-IsAcked (new_subscriber stopping) t es []
      (record { in_order = refl; acked_after = refl }) h

-- The rounds of the loop on a closed channel of deliveries.
abbrev pub closed_rounds : ℕ → List Event
closed_rounds zero = []
closed_rounds (suc n) = case_msgs none ∷ chan_takes ∷ acks ∷ closed_rounds n

closed_round :
    (s : Subscriber) (es : List Event)
    → s.phase ≡ selecting
    → run s (case_msgs none ∷ chan_takes ∷ acks ∷ es)
      ≡ run
          (record s {
            phase = selecting;
            delivered = s.delivered ++ (zero_delivery ∷ []);
            acked = s.acked ++ (zero_delivery ∷ []);
          })
          es
unfolding run step
closed_round s es free = ground arith

-- Once the library has closed the channel of deliveries, the goroutine does not end: any number of
-- rounds follow, and each gives the receive channel an empty message.
pub closed_msgs_flood :
    (n : ℕ) (s : Subscriber)
    → s.phase ≡ selecting
    → (t : Subscriber) × (run s (closed_rounds n) ≡ some t)
      × (t.phase ≡ selecting)
      × (t.delivered ≡ s.delivered ++ replicate n zero_delivery)
unfolding run
closed_msgs_flood zero s free = (s, refl, free, sym (append-nil _))
closed_msgs_flood (suc n) s free =
    let s' : Subscriber = record s {
      phase = selecting;
      delivered = s.delivered ++ (zero_delivery ∷ []);
      acked = s.acked ++ (zero_delivery ∷ []);
    } in
    let (t, runs, still, all) = closed_msgs_flood n s' refl in
    (t, closed_round s (closed_rounds n) free ∙ runs, still, all ∙ append_assoc s.delivered _ _)
