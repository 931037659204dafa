-- ===== src/Rabbitmq/Stopping.antt =====
-- queues/rabbitmq/rabbitmq.go: whole runs of a transport, from `New` to the end of `Stop`.
use vice.Base.{
  ℕ, ◌≡◌, refl, ap, subst, subst₂, sym, ◌∙◌, Bool, true, false, List, [], map, some, Bytes, arith,
  >>=-eq-some,
}
use mathlib.Core.Option.{some-injective}
use vice.Hub.{sending, receiving, made}
use vice.Rabbitmq.Sending.{Event, run, new_publisher, Publisher}
use vice.Rabbitmq.{
  Options, Library, signal, all_exited, Own, RabbitHub, new, make_subscriber, make_publisher, send,
  receive, stop_begins, wait_ends, stop_ends, publisher_event, worker_at,
}
use vice.Hub.Runs.{Machine, Action, acts, MakerKeeps, obtain-keeps}
use vice.Hub.Waiting.{Maintains, Waited, acts-Waited}
use vice.Hub.Logs.{Logged, Logged-append, extend, heard, nothing}
use vice.Rabbitmq.Fields.{
  SameEnd, made-fields, failed-fields, subscriber-fields, no_subscriber-fields,
}
use vice.Rabbitmq.Fleet.{
  IsTracked, IsFinished, worker_at-IsTracked, workers_signalled, all_exited-IsFinished,
}

-- All publishers are tracked, and `Stop` is not past its wait.
record IsWatched {Conn C : Type 0} (es : ℕ → List (Event C)) (o : Own Conn C) : Type 0 where
  tracked : Logged (IsTracked o.stop_pub_chan) o.publishers es
  not_waited : o.waited ≡ false
  open_chan : o.stopchan ≡ false

new_stopping : (C : Type 0) (f : Bool) → (new_publisher {C = C} f).stopping ≡ f
unfolding new_publisher
new_stopping C f = refl

module _ {Conn C : Type 0} (lib : Library Conn C) where
  abbrev pub rabbit_transport : Machine (Own Conn C) C (ℕ × Event C)
  rabbit_transport = record {
    send = send lib;
    receive = receive lib;
    event = λ e h. publisher_event e.0 e.1 h;
    stop_begins = stop_begins;
    wait_ends = wait_ends;
    stop_ends = stop_ends;
  }

  now-IsWatched :
      (es es' : ℕ → List (Event C)) (h t : RabbitHub Conn C)
      → SameEnd h t
      → Logged (IsTracked t.own.stop_pub_chan) t.own.publishers es'
      → IsWatched es h.own
      → IsWatched es' t.own
  now-IsWatched es es' h t (waited, closed) all w = record {
    tracked = all;
    not_waited = waited ∙ w.not_waited;
    open_chan = closed ∙ w.open_chan;
  }

  IsWatched-same :
      (es : ℕ → List (Event C)) (h t : RabbitHub Conn C)
      → (t.own.stop_pub_chan ≡ h.own.stop_pub_chan)
        × (t.own.publishers ≡ h.own.publishers)
        × SameEnd h t
      → IsWatched es h.own
      → IsWatched es t.own
  IsWatched-same es h t (flag, same, ends) w =
      now-IsWatched es es h t ends
        (subst₂ (λ f ws. Logged (IsTracked f) ws es) (sym flag) (sym same) w.tracked) w

  IsWatched-made :
      (es : ℕ → List (Event C)) (name : Bytes) (h t : RabbitHub Conn C) (ch : ℕ)
      → make_publisher lib name h ≡ made t ch
      → IsWatched es h.own
      → IsWatched es t.own
  unfolding run
  IsWatched-made es name h t ch m watched =
      let (flag, ends, w, more, fresh) = made-fields lib name h t ch m in
      let f = h.own.stop_pub_chan in
      let tracked : IsTracked f [] w = record {
        started = f;
        events = [];
        ran = ap some (sym fresh);
        signalled = ap (λ (s : Publisher C). s.stopping) fresh ∙ new_stopping C f;
        heard = refl;
      } in
      now-IsWatched es es h t ends
        (subst₂ (λ g ws. Logged (IsTracked g) ws es) (sym flag) (sym more)
          (Logged-append (IsTracked f) h.own.publishers w es tracked watched.tracked))
        watched

  publisher-Keeps : (es : ℕ → List (Event C)) → MakerKeeps (make_publisher lib) (IsWatched es)
  publisher-Keeps es = record {
    when_made = IsWatched-made es;
    when_failed = λ name h t e m. IsWatched-same es h t (failed-fields lib name h t e m);
  }

  subscriber-Keeps : (es : ℕ → List (Event C)) → MakerKeeps (make_subscriber lib) (IsWatched es)
  subscriber-Keeps es = record {
    when_made = λ name h t ch m. IsWatched-same es h t (subscriber-fields lib name h t ch m);
    when_failed = λ name h t e m. IsWatched-same es h t (no_subscriber-fields lib name h t e m);
  }

  stop_begins-IsWatched :
      (es : ℕ → List (Event C)) (h t : RabbitHub Conn C)
      → stop_begins h ≡ some t
      → IsWatched es h.own
      → IsWatched es t.own
  unfolding stop_begins
  stop_begins-IsWatched es h t e w =
      let open_chan : h.own.stop_pub_chan ≡ false = ground arith in
      let closed : t.own.stop_pub_chan ≡ true = ground arith in
      let same : t.own.publishers ≡ map signal h.own.publishers = ground arith in
      now-IsWatched es es h t (ground arith, ground arith)
        (subst₂ (λ f ws. Logged (IsTracked f) ws es) (sym closed) (sym same)
          (workers_signalled h.own.publishers es
            (subst (λ f. Logged (IsTracked f) h.own.publishers es) open_chan w.tracked)))
        w

  wait_ends-exited :
      (h t : RabbitHub Conn C) → wait_ends h ≡ some t → all_exited h.own.publishers ≡ true
  unfolding wait_ends
  wait_ends-exited h t e = ground arith

  stop_ends-waited : (h t : RabbitHub Conn C) → stop_ends h ≡ some t → h.own.waited ≡ true
  unfolding stop_ends
  stop_ends-waited h t e = ground arith

  event-same :
      (i : ℕ) (e : Event C) (h t : RabbitHub Conn C) → publisher_event i e h ≡ some t → SameEnd h t
  unfolding publisher_event
  event-same i e h t r = (ground arith, ground arith)

  event-IsWatched :
      (es : ℕ → List (Event C)) (i : ℕ) (e : Event C) (h t : RabbitHub Conn C)
      → publisher_event i e h ≡ some t
      → IsWatched es h.own
      → IsWatched (extend i e es) t.own
  unfolding publisher_event
  event-IsWatched es i e h t r w =
      let (ws, now, same) = >>=-eq-some (worker_at i e h.own.publishers) _ r in
      now-IsWatched es (extend i e es) h t (event-same i e h t r)
        (subst
          (λ (u : RabbitHub Conn C).
            Logged (IsTracked u.own.stop_pub_chan) u.own.publishers (extend i e es))
          (some-injective _ _ same)
          (worker_at-IsTracked h.own.stop_pub_chan i e h.own.publishers ws es w.tracked now))
        w

  rabbit-Maintains : Maintains rabbit_transport (λ o. o.stopchan) IsWatched
  unfolding send receive
  rabbit-Maintains = record {
    send_keeps =
        λ es. obtain-keeps sending (make_publisher lib) (IsWatched es) (publisher-Keeps es);
    receive_keeps =
        λ es. obtain-keeps receiving (make_subscriber lib) (IsWatched es) (subscriber-Keeps es);
    event_keeps = event-IsWatched;
    begin_keeps = stop_begins-IsWatched;
    end_waits =
        λ es h t e w. let was = stop_ends-waited h t e in let not_yet = w.not_waited in absurd cc;
    still_open = λ es o w. w.open_chan;
  }

  new-IsWatched :
      (opts : List (Options Conn → Options Conn))
      → IsWatched {Conn = Conn} {C = C} nothing (new opts).own
  unfolding new Logged
  new-IsWatched opts = record { tracked = λ i. refl; not_waited = refl; open_chan = refl }

  -- A run of calls and events, in any order, that leads from a new transport over RabbitMQ to one
  -- whose `Done` is closed has a point at which the wait of `Stop` ends. There every publisher has
  -- returned and closed its AMQP channel: it has published, in order and under the name of its
  -- queue, all that clients sent to it in the run until then, and has reported every failure.
  pub acts-IsFinished :
      (opts : List (Options Conn → Options Conn)) (path : List (Action (ℕ × Event C)))
      (t : RabbitHub Conn C)
      → acts rabbit_transport path (new opts) ≡ some t
      → t.own.stopchan ≡ true
      → (w : Waited rabbit_transport path (new opts) t) × Logged IsFinished w.waiting.own.publishers
          (heard w.before nothing)
  acts-IsFinished opts path t e done =
      let (w, watched) =
        acts-Waited rabbit_transport (λ o. o.stopchan) IsWatched rabbit-Maintains path nothing
          (new opts) t e done (new-IsWatched opts) in
      (
        w,
        all_exited-IsFinished w.waiting.own.stop_pub_chan w.waiting.own.publishers
            (heard w.before nothing) watched.tracked (wait_ends-exited w.waiting w.past w.waits),
      )
