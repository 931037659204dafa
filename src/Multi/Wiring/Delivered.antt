-- ===== src/Multi/Wiring/Delivered.antt =====
-- queues/sqs/multi_writer.go, `Stop`: its signals, and what is true of the lines when its wait ends.
use vice.Base.{
  ℕ, zero, suc, ◌∙◌, append-nil, concat_map-append, ◌≡◌, refl, subst, Bool, true, false, List, [],
  ◌∷◌, ◌++◌, map, arith, All, concat_map,
}
use mathlib.Core.List.{Perm}
use vice.Multi.Batching
use vice.Multi.Batching.{Batcher, new_batcher, in_hand, returned}
use vice.Multi.Batching.Moves.{run-append, stops}
use vice.Multi.Wiring.{Line, LineEvent, signal, batcher_returned, all_returned}
use vice.Sqs.Publisher.Order.{bodies}
use vice.Multi.Batching.Order.{
  bodies_of, handed_bodies, waiting, accepted, accepted_by, batches-carried,
}
use vice.Multi.Group.Writers.{all_bodies}
use vice.Multi.Group.Held.{in_dispatch}
use vice.Multi.Group.Conserve.{run-IsConserved}
use vice.Multi.Group.Alive.{Dispatches, Works, run-IsAlive}
use vice.Multi.Wiring.Tracked.{IsTracked, sent_to}
use vice.Hub.Logs.{Logged, Logged-map}

module _ {E : Type 0} (batch_size : ℕ) where
  IsTracked-signal :
      (d : Bool) (es : List LineEvent) (l : Line E)
      → IsTracked batch_size false d es l
      → IsTracked batch_size true d es (signal l)
  unfolding signal Batching.run
  IsTracked-signal d es l k =
      let b : Batcher = record l.batcher { stopping = true } in
      record {
        started = k.started;
        events = k.events ++ (Batching.Event.stop ∷ []);
        ran =
            run-append l.name batch_size (new_batcher k.started) l.batcher b k.events
              (Batching.Event.stop ∷ []) k.ran (stops l.name batch_size l.batcher k.signalled);
        svcs = k.svcs;
        opened = k.opened;
        moves = k.moves;
        worked = k.worked;
        linked = k.linked;
        signalled = refl;
        finished = k.finished;
        heard =
            concat_map-append accepted_by k.events (Batching.Event.stop ∷ [])
            ∙ append-nil (accepted k.events)
            ∙ k.heard;
      }

  pub lines_signalled :
      (d : Bool) (ls : List (Line E)) (es : ℕ → List LineEvent)
      → Logged (IsTracked batch_size false d) ls es
      → Logged (IsTracked batch_size true d) (map signal ls) es
  lines_signalled d =
      Logged-map (IsTracked batch_size false d) (IsTracked batch_size true d) signal
        (IsTracked-signal d)

-- A line whose batcher has returned, `es` being its events: all that was sent to its channel was
-- handed over in order, but for what is left in the channel; what was handed over was sent by the
-- writers, or is with them or with the dispatcher, in some order; and the dispatcher and the writers
-- have not returned.
pub record IsDelivered {E : Type 0} (es : List LineEvent) (l : Line E) : Type 0 where
  pub back : l.batcher.phase ≡ returned
  pub in_order : handed_bodies l.batcher ++ l.batcher.pending ≡ sent_to es
  pub shared_out :
      Perm (all_bodies l.group.writers ++ in_dispatch l.group.dispatch) (handed_bodies l.batcher)
  pub dispatches : Dispatches l.group.dispatch
  pub works : All Works l.group.writers

phase_returned : (p : Batching.Phase) → batcher_returned p ≡ true → p ≡ returned
unfolding batcher_returned
phase_returned returned h = refl
phase_returned Batching.Phase.selecting h = cc h
phase_returned (Batching.Phase.handing w) h = cc h
phase_returned (Batching.Phase.leaving w) h = cc h
phase_returned Batching.Phase.sleeping h = cc h

module _ {E : Type 0} (batch_size : ℕ) (f : Bool) where
  tracked-IsDelivered :
      (es : List LineEvent) (l : Line E)
      → IsTracked batch_size f false es l
      → l.batcher.phase ≡ returned
      → IsDelivered es l
  tracked-IsDelivered es l k back =
      let alive = run-IsAlive k.svcs k.opened l.group k.moves k.worked k.finished in
      record {
        back = back;
        in_order =
            subst
              (λ p.
                handed_bodies l.batcher ++ (bodies (waiting p l.batcher.accum) ++ l.batcher.pending)
                ≡ sent_to es)
              back (batches-carried l.name batch_size k.started l.batcher k.events k.ran ∙ k.heard);
        shared_out =
            subst
              (λ ms.
                Perm (all_bodies l.group.writers ++ in_dispatch l.group.dispatch)
                  (concat_map bodies_of ms))
              k.linked (run-IsConserved k.svcs k.opened l.group k.moves k.worked);
        dispatches = alive.0;
        works = alive.1;
      }

  pub all_returned-IsDelivered :
      (ls : List (Line E)) (es : ℕ → List LineEvent)
      → Logged (IsTracked batch_size f false) ls es
      → all_returned ls ≡ true
      → Logged IsDelivered ls es
  unfolding all_returned Logged
  all_returned-IsDelivered [] es all e = all
  all_returned-IsDelivered (l ∷ ls) es all e = (
    tracked-IsDelivered (es zero) l all.0 (phase_returned l.batcher.phase (ground arith)),
    all_returned-IsDelivered ls (λ k. es (suc k)) all.1 (ground arith),
  )
