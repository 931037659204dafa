-- ===== src/Nats/Runs.antt =====
-- queues/nats/nats.go: whole runs of a transport, from `New` to the end of `Stop`.
use vice.Base.{
  ℕ, ◌≡◌, refl, ◌∙◌, false, subst, subst₂, sym, true, List, [], ◌∷◌, ◌++◌, some, Bytes, arith,
  >>=-eq-some,
}
use mathlib.Core.Option.{some-injective}
use vice.Hub.{sending, receiving, made, not_made, obtain}
use vice.Hub.Runs.{Machine, Action, acts, MakerKeeps, obtain-keeps}
use vice.Hub.Waiting.{Maintains, Waited, acts-Waited}
use vice.Hub.Logs.{Logged, extend, heard, nothing}
use vice.Relay.{Event}
use vice.Relay.Fleet.{
  Tracked, IsComplete, start_worker, worker_at, worker_at-Tracked, signal_all-Tracked,
  start_worker-Tracked, all_exited-IsComplete,
}
use vice.Nats.Stopping.{nats_begins-fields, wait_ends-exited, stop_ends-waited}
use vice.Nats.{
  Library, Options, Own, NatsHub, new, make_subscriber, make_publisher, send, receive, stop_begins,
  wait_ends, stop_ends, publisher_event,
}

module _ {Conn Stan C : Type 0} (lib : Library Conn Stan C) where
  abbrev pub nats_transport : Machine (Own Conn Stan C) C (ℕ × Event C)
  nats_transport = record {
    send = send lib;
    receive = receive lib;
    event = λ e h. publisher_event e.0 e.1 h;
    stop_begins = stop_begins;
    wait_ends = wait_ends;
    stop_ends = stop_ends;
  }

  -- All publishers are tracked, and `Stop` is not past its wait.
  pub record IsWatched (es : ℕ → List (Event C)) (o : Own Conn Stan C) : Type 0 where
    pub tracked : Logged (Tracked o.stop_pub_chan) o.publishers es
    pub not_waited : o.waited ≡ false
    pub open_chan : o.stopchan ≡ false

  abbrev SameEnd : NatsHub Conn Stan C → NatsHub Conn Stan C → Type 0
  SameEnd h t = (t.own.waited ≡ h.own.waited) × (t.own.stopchan ≡ h.own.stopchan)

  now-IsWatched :
      (es es' : ℕ → List (Event C)) (h t : NatsHub Conn Stan C)
      → SameEnd h t
      → Logged (Tracked t.own.stop_pub_chan) t.own.publishers es'
      → IsWatched es h.own
      → IsWatched es' t.own
  now-IsWatched es es' h t (waited, closed) all w = record {
    tracked = all;
    not_waited = waited ∙ w.not_waited;
    open_chan = closed ∙ w.open_chan;
  }

  IsWatched-same :
      (es : ℕ → List (Event C)) (h t : NatsHub Conn Stan C)
      → (t.own.stop_pub_chan ≡ h.own.stop_pub_chan)
        × (t.own.publishers ≡ h.own.publishers)
        × SameEnd h t
      → IsWatched es h.own
      → IsWatched es t.own
  IsWatched-same es h t (flag, same, ends) w =
      now-IsWatched es es h t ends
        (subst₂ (λ f ws. Logged (Tracked f) ws es) (sym flag) (sym same) w.tracked) w

  publisher_made :
      (name : Bytes) (h t : NatsHub Conn Stan C) (ch : ℕ)
      → make_publisher lib name h ≡ made t ch
      → (t.own.stop_pub_chan ≡ h.own.stop_pub_chan)
        × (t.own.publishers ≡ h.own.publishers ++ (start_worker name ch h.own.stop_pub_chan ∷ []))
        × SameEnd h t
  unfolding make_publisher
  publisher_made name h t ch m = (ground arith, ground arith, (ground arith, ground arith))

  publisher_not_made :
      (name : Bytes) (h t : NatsHub Conn Stan C) (e : C)
      → make_publisher lib name h ≡ not_made t e
      → (t.own.stop_pub_chan ≡ h.own.stop_pub_chan)
        × (t.own.publishers ≡ h.own.publishers)
        × SameEnd h t
  unfolding make_publisher
  publisher_not_made name h t e m = (ground arith, ground arith, (ground arith, ground arith))

  subscriber_made :
      (name : Bytes) (h t : NatsHub Conn Stan C) (ch : ℕ)
      → make_subscriber lib name h ≡ made t ch
      → (t.own.stop_pub_chan ≡ h.own.stop_pub_chan)
        × (t.own.publishers ≡ h.own.publishers)
        × SameEnd h t
  unfolding make_subscriber
  subscriber_made name h t ch m = (ground arith, ground arith, (ground arith, ground arith))

  subscriber_not_made :
      (name : Bytes) (h t : NatsHub Conn Stan C) (e : C)
      → make_subscriber lib name h ≡ not_made t e
      → (t.own.stop_pub_chan ≡ h.own.stop_pub_chan)
        × (t.own.publishers ≡ h.own.publishers)
        × SameEnd h t
  unfolding make_subscriber
  subscriber_not_made name h t e m = (ground arith, ground arith, (ground arith, ground arith))

  publisher-Keeps : (es : ℕ → List (Event C)) → MakerKeeps (make_publisher lib) (IsWatched es)
  publisher-Keeps es = record {
    when_made = λ name h t ch m w.
        let (flag, more, ends) = publisher_made name h t ch m in
        now-IsWatched es es h t ends
          (subst₂ (λ f ws. Logged (Tracked f) ws es) (sym flag) (sym more)
            (start_worker-Tracked name ch h.own.stop_pub_chan h.own.publishers es w.tracked))
          w;
    when_failed = λ name h t e m. IsWatched-same es h t (publisher_not_made name h t e m);
  }

  subscriber-Keeps : (es : ℕ → List (Event C)) → MakerKeeps (make_subscriber lib) (IsWatched es)
  subscriber-Keeps es = record {
    when_made = λ name h t ch m. IsWatched-same es h t (subscriber_made name h t ch m);
    when_failed = λ name h t e m. IsWatched-same es h t (subscriber_not_made name h t e m);
  }

  event-same :
      (i : ℕ) (e : Event C) (h t : NatsHub Conn Stan C)
      → publisher_event i e h ≡ some t
      → SameEnd h t
  unfolding publisher_event
  event-same i e h t r = (ground arith, ground arith)

  event-IsWatched :
      (es : ℕ → List (Event C)) (i : ℕ) (e : Event C) (h t : NatsHub Conn Stan C)
      → publisher_event i e h ≡ some t
      → IsWatched es h.own
      → IsWatched (extend i e es) t.own
  unfolding publisher_event
  event-IsWatched es i e h t r w =
      let (ws, now, same) = >>=-eq-some (worker_at i e h.own.publishers) _ r in
      now-IsWatched es (extend i e es) h t (event-same i e h t r)
        (subst
          (λ (u : NatsHub Conn Stan C).
            Logged (Tracked u.own.stop_pub_chan) u.own.publishers (extend i e es))
          (some-injective _ _ same)
          (worker_at-Tracked h.own.stop_pub_chan i e h.own.publishers ws es w.tracked now))
        w

  stop_begins-IsWatched :
      (es : ℕ → List (Event C)) (h t : NatsHub Conn Stan C)
      → stop_begins h ≡ some t
      → IsWatched es h.own
      → IsWatched es t.own
  stop_begins-IsWatched es h t e w =
      let (open_chan, closed, same, _, waited, stays) = nats_begins-fields h t e in
      now-IsWatched es es h t (waited, stays)
        (subst₂ (λ f ws. Logged (Tracked f) ws es) (sym closed) (sym same)
          (signal_all-Tracked h.own.publishers es
            (subst (λ f. Logged (Tracked f) h.own.publishers es) open_chan w.tracked)))
        w

  -- A call that returns did not find the mutex held.
  sends-obtain :
      (name : Bytes) (h t : NatsHub Conn Stan C) (ch : ℕ)
      → send lib name h ≡ some (t, ch)
      → obtain sending (make_publisher lib) name h ≡ some (t, ch)
  unfolding send
  sends-obtain name h t ch e = ground arith

  receives-obtain :
      (name : Bytes) (h t : NatsHub Conn Stan C) (ch : ℕ)
      → receive lib name h ≡ some (t, ch)
      → obtain receiving (make_subscriber lib) name h ≡ some (t, ch)
  unfolding receive
  receives-obtain name h t ch e = ground arith

  nats-Maintains : Maintains nats_transport (λ o. o.stopchan) IsWatched
  nats-Maintains = record {
    send_keeps = λ es name h t ch e.
        obtain-keeps sending (make_publisher lib) (IsWatched es) (publisher-Keeps es) name h t ch
          (sends-obtain name h t ch e);
    receive_keeps = λ es name h t ch e.
        obtain-keeps receiving (make_subscriber lib) (IsWatched es) (subscriber-Keeps es) name h t
          ch (receives-obtain name h t ch e);
    event_keeps = event-IsWatched;
    begin_keeps = stop_begins-IsWatched;
    end_waits =
        λ es h t e w. let was = stop_ends-waited h t e in let not_yet = w.not_waited in absurd cc;
    still_open = λ es o w. w.open_chan;
  }

  new-IsWatched : (opts : List (Options Conn → Options Conn)) → IsWatched nothing (new opts).own
  unfolding new Logged
  new-IsWatched opts = record { tracked = λ i. refl; not_waited = refl; open_chan = refl }

  -- A run of calls and events, in any order, that leads from a new transport over NATS to one
  -- whose `Done` is closed has a point at which the wait of `Stop` ends. There every publisher has
  -- returned; what it sent, in order, followed by what is left in its channel, is all that clients
  -- sent to its channel in the run until then; and it has reported every failure.
  pub nats_acts-IsComplete :
      (opts : List (Options Conn → Options Conn)) (path : List (Action (ℕ × Event C)))
      (t : NatsHub Conn Stan C)
      → acts nats_transport path (new opts) ≡ some t
      → t.own.stopchan ≡ true
      → (w : Waited nats_transport path (new opts) t) × Logged IsComplete w.waiting.own.publishers
          (heard w.before nothing)
  nats_acts-IsComplete opts path t e done =
      let (w, watched) =
        acts-Waited nats_transport (λ o. o.stopchan) IsWatched nats-Maintains path nothing
          (new opts) t e done (new-IsWatched opts) in
      (
        w,
        all_exited-IsComplete w.waiting.own.stop_pub_chan w.waiting.own.publishers
            (heard w.before nothing) watched.tracked (wait_ends-exited w.waiting w.past w.waits),
      )
