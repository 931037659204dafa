-- ===== src/Multi/Batching/Equivalence.antt =====
-- queues/sqs/multi_writer.go and queues/sqs/sqs.go: the batches of the two publishers.
use vice.Base.{
  ℕ, ◌≡◌, refl, ap, subst, ◌∙◌, true, false, List, [], ◌∷◌, ◌++◌, map, some, Bytes, arith,
  concat_map-append, length, >>=-eq-some,
}
use mathlib.Core.Option.{some-injective}
use vice.Sqs.Service.{Service}
use vice.Sqs.Publisher
use vice.Sqs.Publisher.{Publisher, new_publisher}
use vice.Sqs.Publisher.Order.{accepted as published, accepted_by as published_by}
use vice.Sqs.Publisher.Bounds.{IsBounded, step-IsBounded, new_publisher-IsBounded}
use vice.Sqs.Publisher.Steps.{step-client_send, step-stop}
use vice.Sqs.Publisher.Cases.{case_message-cases, case_timeout-cases, case_stop-cases}
use vice.Multi.Batching.Order.{bodies_of, accepted, accepted_by}
use vice.Multi.Batching.Moves.{sends, stops, run-append}
use vice.Multi.Batching.Mirrors.{
  payloads, Mirrors, Follows, stays, message-Follows, stop-Follows, timeout-Follows,
}
use vice.Multi.Batching.{returned, Batcher, new_batcher, Event, client_send, stop, run}

module _ {E : Type 0} (svc : Service E) (name : Bytes) (batch_size : ℕ) where
  step-Follows :
      (p t : Publisher E) (e : Publisher.Event) (b : Batcher)
      → IsBounded name batch_size p
      → Mirrors p b
      → Publisher.step svc name batch_size p e ≡ some t
      → Follows svc name batch_size b t (published_by e)
  step-Follows p t (Publisher.Event.client_send m) b v k h =
      let (e, room) = step-client_send svc name batch_size p t m h in
      rw e (record {
        events = client_send m ∷ [];
        after = record b { pending = b.pending ++ (m ∷ []) };
        ran = sends name batch_size b m (omega (arith, room, ap length k.pending_same));
        same_input = refl;
        mirrors = record {
          pending_same = ap (λ l. l ++ (m ∷ [])) k.pending_same;
          stopping_same = k.stopping_same;
          sent_same = k.sent_same;
          live = k.live;
          gone = k.gone;
        };
      })
  step-Follows p t Publisher.Event.stop b v k h =
      let (e, open_chan) = step-stop svc name batch_size p t h in
      rw e (record {
        events = stop ∷ [];
        after = record b { stopping = true };
        ran = stops name batch_size b (k.stopping_same ∙ open_chan);
        same_input = refl;
        mirrors = record {
          pending_same = k.pending_same;
          stopping_same = refl;
          sent_same = k.sent_same;
          live = k.live;
          gone = k.gone;
        };
      })
  step-Follows p t Publisher.Event.case_stop b v k h =
      let (stopping, going, cases) = case_stop-cases svc name batch_size p t h in
      stop-Follows svc name batch_size p t b k stopping going cases
  step-Follows p t (Publisher.Event.case_message now) b v k h =
      let (going, cases) = case_message-cases svc name batch_size p t now h in
      message-Follows svc name batch_size p t b now v k going cases
  step-Follows p t Publisher.Event.case_timeout b v k h =
      let (going, cases) = case_timeout-cases svc name batch_size p t h in
      timeout-Follows svc name batch_size p t b v k going cases

  run-Mirrors :
      (p t : Publisher E) (es : List Publisher.Event) (b : Batcher)
      → IsBounded name batch_size p
      → Mirrors p b
      → Publisher.run svc name batch_size p es ≡ some t
      → Follows svc name batch_size b t (published es)
  unfolding Publisher.run run
  run-Mirrors p t [] b v k h =
      subst (λ u. Follows svc name batch_size b u []) (some-injective _ _ h)
        (stays svc name batch_size p b k)
  run-Mirrors p t (e ∷ es) b v k h =
      let (u, now, later) = >>=-eq-some (Publisher.step svc name batch_size p e) _ h in
      let first = step-Follows p u e b v k now in
      let rest =
        run-Mirrors u t es first.after (step-IsBounded svc name batch_size p u e v now)
          first.mirrors later in
      record {
        events = first.events ++ rest.events;
        after = rest.after;
        ran =
            run-append name batch_size b first.after rest.after first.events rest.events first.ran
              rest.ran;
        same_input =
            concat_map-append accepted_by first.events rest.events
            ∙ ap (λ l. l ++ accepted rest.events) first.same_input
            ∙ ap (λ l. published_by e ++ l) rest.same_input;
        mirrors = rest.mirrors;
      }

  -- For every interleaving of the single publisher of queues/sqs/sqs.go there is one of the
  -- batcher of queues/sqs/multi_writer.go that accepts the same messages and hands over exactly the
  -- batches that the publisher has sent, in order, less those that are empty; if the publisher has
  -- returned then so has the batcher.
  pub same_batches :
      (t : Publisher E) (es : List Publisher.Event)
      → Publisher.run svc name batch_size new_publisher es ≡ some t
      → (b : Batcher) × (fs : List Event) × (run name batch_size (new_batcher false) fs ≡ some b)
        × (accepted fs ≡ published es)
        × (map bodies_of b.handed ≡ payloads t.calls)
        × (t.exited ≡ true → b.phase ≡ returned)
  unfolding new_batcher new_publisher
  same_batches t es h =
      let f =
        run-Mirrors new_publisher t es (new_batcher false)
          (new_publisher-IsBounded svc name batch_size)
          (record {
            pending_same = refl;
            stopping_same = refl;
            sent_same = refl;
            live = λ _. (refl, refl);
            gone = λ z. cc z;
          })
          h in
      (f.after, f.events, f.ran, f.same_input, f.mirrors.sent_same, f.mirrors.gone)
