-- ===== src/Sqs/Transport/Stopping.antt =====
-- queues/sqs/sqs.go, `Stop`: what is true of the publishers, and of what their channels have
-- accepted so far, until and when its wait ends.
use vice.Base.{
  ℕ, zero, suc, ◌≡◌, ◌≢◌, refl, ap, subst, subst₂, sym, ◌∙◌, Bool, true, false, List, [], ◌∷◌, ◌++◌,
  map, Bytes, some, arith, append-nil, concat_map-append, >>=-eq-some,
}
use mathlib.Core.Option.{some-injective}
use vice.Hub.{made}
use vice.Hub.Logs.{Logged, Logged-append, Logged-map, extend}
use vice.Sqs.Service.{Service}
use vice.Sqs.Publisher.{
  Publisher, Event, client_send, stop, case_stop, case_message, case_timeout, new_publisher, step,
  run,
}
use vice.Sqs.Publisher.Order.{sent, accepted, accepted_by}
use vice.Sqs.Publisher.Stop.{signal_step, run-snoc, step-stopping, exited_complete}
use vice.Sqs.Region.{region_from_url}
use vice.Sqs.Transport.{
  Worker, NewService, no_service, new_service, SqsHub, make_publisher, stop_begins, all_exited,
  wait_ends, signal, worker_event, worker_at, publisher_event,
}

accepted-snoc :
    (xs ys : List Event) (e : Event)
    → accepted xs ≡ accepted ys
    → accepted (xs ++ (e ∷ [])) ≡ accepted (ys ++ (e ∷ []))
accepted-snoc xs ys e same =
    concat_map-append accepted_by xs (e ∷ [])
    ∙ ap (λ l. l ++ accepted (e ∷ [])) same
    ∙ sym (concat_map-append accepted_by ys (e ∷ []))

module _ {E : Type 0} where
  -- A publisher is in a state that some interleaving leads to, in which its channel has accepted
  -- exactly what the events `es` of the transport's run sent to it; it has seen the signal to stop
  -- exactly if stopPubChan is closed.
  pub record Tracked (batch_size : ℕ) (stopping : Bool) (es : List Event) (w : Worker E)
      : Type 0 where
    pub events : List Event
    pub ran : run w.svc w.name batch_size new_publisher events ≡ some w.state
    pub signalled : w.state.stopping ≡ stopping
    pub heard : accepted events ≡ accepted es

  -- All publishers of a transport are.
  abbrev pub AllTracked : (ℕ → List Event) → SqsHub E → Type 0
  AllTracked es h = Logged (Tracked h.own.batch_size h.own.stop_pub_chan) h.own.publishers es

  worker_event-step :
      (b : ℕ) (w w' : Worker E) (e : Event)
      → worker_event b w e ≡ some w'
      → (s : Publisher E) × (step w.svc w.name b w.state e ≡ some s)
        × (w' ≡ record w { state = s })
        × (e ≢ stop)
  unfolding worker_event
  worker_event-step b w w' stop h = absurd (ground arith)
  worker_event-step b w w' (client_send m) h =
      let (s, st, e) = >>=-eq-some (step w.svc w.name b w.state (client_send m)) _ h in
      (s, st, ground arith, λ n. cc)
  worker_event-step b w w' case_stop h =
      let (s, st, e) = >>=-eq-some (step w.svc w.name b w.state case_stop) _ h in
      (s, st, ground arith, λ n. cc)
  worker_event-step b w w' (case_message now) h =
      let (s, st, e) = >>=-eq-some (step w.svc w.name b w.state (case_message now)) _ h in
      (s, st, ground arith, λ n. cc)
  worker_event-step b w w' case_timeout h =
      let (s, st, e) = >>=-eq-some (step w.svc w.name b w.state case_timeout) _ h in
      (s, st, ground arith, λ n. cc)

  Tracked-event :
      (b : ℕ) (f : Bool) (es : List Event) (w w' : Worker E) (e : Event)
      → Tracked b f es w
      → worker_event b w e ≡ some w'
      → Tracked b f (es ++ (e ∷ [])) w'
  Tracked-event b f es w w' e k h =
      let (s, st, same, other) = worker_event-step b w w' e h in
      subst (Tracked b f (es ++ (e ∷ []))) (sym same) (record {
        events = k.events ++ (e ∷ []);
        ran = run-snoc w.svc w.name b new_publisher w.state s k.events e k.ran st;
        signalled = step-stopping w.svc w.name b w.state s e other st ∙ k.signalled;
        heard = accepted-snoc k.events es e k.heard;
      })

  Tracked-at :
      (b : ℕ) (f : Bool) (i : ℕ) (e : Event) (ws ws' : List (Worker E)) (es : ℕ → List Event)
      → Logged (Tracked b f) ws es
      → worker_at b i e ws ≡ some ws'
      → Logged (Tracked b f) ws' (extend i e es)
  unfolding worker_at Logged extend
  Tracked-at b f i e [] ws' es all h = absurd (ground arith)
  Tracked-at b f zero e (w ∷ ws) ws' es all h =
      let (w', now, same) = >>=-eq-some (worker_event b w e) _ h in
      subst (λ l. Logged (Tracked b f) l (extend zero e es)) (some-injective _ _ same)
        (Tracked-event b f (es zero) w w' e all.0 now, all.1)
  Tracked-at b f (suc i) e (w ∷ ws) ws' es all h =
      let (ws'', now, same) = >>=-eq-some (worker_at b i e ws) _ h in
      subst (λ l. Logged (Tracked b f) l (extend (suc i) e es)) (some-injective _ _ same)
        (all.0, Tracked-at b f i e ws ws'' (λ k. es (suc k)) all.1 now)

  -- An event of one publisher keeps all of them tracked.
  pub publisher_event-AllTracked :
      (es : ℕ → List Event) (i : ℕ) (e : Event) (h t : SqsHub E)
      → AllTracked es h
      → publisher_event i e h ≡ some t
      → AllTracked (extend i e es) t
  unfolding publisher_event
  publisher_event-AllTracked es i e h t all p =
      let (ws, now, same) = >>=-eq-some (worker_at h.own.batch_size i e h.own.publishers) _ p in
      subst (AllTracked (extend i e es)) (some-injective _ _ same)
        (Tracked-at h.own.batch_size h.own.stop_pub_chan i e h.own.publishers ws es all now)

  Tracked-signal :
      (b : ℕ) (es : List Event) (w : Worker E) → Tracked b false es w → Tracked b true es (signal w)
  unfolding signal
  Tracked-signal b es w k = record {
    events = k.events ++ (stop ∷ []);
    ran =
        run-snoc w.svc w.name b new_publisher w.state (record w.state { stopping = true }) k.events
          stop k.ran (signal_step w.svc w.name b w.state k.signalled);
    signalled = refl;
    heard =
        concat_map-append accepted_by k.events (stop ∷ [])
        ∙ append-nil (accepted k.events)
        ∙ k.heard;
  }

  stop_begins-fields :
      (h t : SqsHub E)
      → stop_begins h ≡ some t
      → (h.own.stop_pub_chan ≡ false)
        × (t ≡ record h {
          own = record h.own {
            stop_sub_chan = true;
            stop_pub_chan = true;
            publishers = map signal h.own.publishers;
          };
        })
  unfolding stop_begins
  stop_begins-fields h t e = (ground arith, ground arith)

  -- `Stop` signals every publisher, and keeps all of them tracked.
  pub stop_begins-AllTracked :
      (es : ℕ → List Event) (h t : SqsHub E)
      → AllTracked es h
      → stop_begins h ≡ some t
      → AllTracked es t
  stop_begins-AllTracked es h t all e =
      let (open_chan, same) = stop_begins-fields h t e in
      let b = h.own.batch_size in
      subst (AllTracked es) (sym same) (
        Logged-map (Tracked b false) (Tracked b true) signal (Tracked-signal b) h.own.publishers es
          (subst (λ f. Logged (Tracked b f) h.own.publishers es) open_chan all))

  new_worker : SqsHub E → Bytes → ℕ → Service E → Worker E
  new_worker h name ch svc = record {
    name = name;
    chan = ch;
    svc = svc;
    state = record new_publisher { stopping = h.own.stop_pub_chan };
  }

  Tracked-new :
      (h : SqsHub E) (name : Bytes) (ch : ℕ) (svc : Service E) (f : Bool)
      → h.own.stop_pub_chan ≡ f
      → Tracked h.own.batch_size f [] (new_worker h name ch svc)
  unfolding new_worker run new_publisher
  Tracked-new h name ch svc true e = record {
    events = stop ∷ [];
    ran = ground arith;
    signalled = e;
    heard = refl;
  }
  Tracked-new h name ch svc false e = record {
    events = [];
    ran = ground arith;
    signalled = e;
    heard = refl;
  }

  make_publisher-fields :
      (create : ℕ → Bytes → NewService E) (name : Bytes) (h t : SqsHub E) (ch : ℕ)
      → make_publisher create name h ≡ made t ch
      → (svc : Service E) × (t.own.publishers ≡ h.own.publishers ++ (new_worker h name ch svc ∷ []))
        × (t.own.batch_size ≡ h.own.batch_size)
        × (t.own.stop_pub_chan ≡ h.own.stop_pub_chan)
  unfolding make_publisher new_worker
  make_publisher-fields create name h t ch m =
      created (create h.own.services (region_from_url name)) refl
    where
      created :
          (c : NewService E)
          → create h.own.services (region_from_url name) ≡ c
          → (svc : Service E) × (t.own.publishers
              ≡ h.own.publishers ++ (new_worker h name ch svc ∷ []))
            × (t.own.batch_size ≡ h.own.batch_size)
            × (t.own.stop_pub_chan ≡ h.own.stop_pub_chan)
      created (no_service e) c = absurd (ground arith)
      created (new_service svc) c = (svc, ground arith, ground arith, ground arith)

  -- `makePublisher` starts a goroutine that sees at once whether it must stop, and keeps all of
  -- them tracked.
  pub make_publisher-AllTracked :
      (create : ℕ → Bytes → NewService E) (es : ℕ → List Event) (name : Bytes) (h t : SqsHub E)
      (ch : ℕ)
      → AllTracked es h
      → make_publisher create name h ≡ made t ch
      → AllTracked es t
  make_publisher-AllTracked create es name h t ch all m =
      let (svc, ws, b, f) = make_publisher-fields create name h t ch m in
      let more =
        Logged-append (Tracked h.own.batch_size h.own.stop_pub_chan) h.own.publishers _ es
          (Tracked-new h name ch svc h.own.stop_pub_chan refl) all in
      subst (λ l. Logged (Tracked t.own.batch_size t.own.stop_pub_chan) l es) (sym ws)
        (subst₂
          (λ b f. Logged (Tracked b f) (h.own.publishers ++ (new_worker h name ch svc ∷ [])) es)
          (sym b) (sym f) more)

  -- A publisher that has returned, `es` being its events: the messages handed to the service, in
  -- order, and then those that the channel has taken since the return, are all that was sent to its
  -- channel.
  pub record IsComplete (es : List Event) (w : Worker E) : Type 0 where
    pub exited : w.state.exited ≡ true
    pub complete : sent w.state.calls ++ w.state.pending ≡ accepted es

  exited-IsComplete :
      (b : ℕ) (f : Bool) (ws : List (Worker E)) (es : ℕ → List Event)
      → Logged (Tracked b f) ws es
      → all_exited ws ≡ true
      → Logged IsComplete ws es
  unfolding Logged all_exited
  exited-IsComplete b f [] es k e = k
  exited-IsComplete b f (w ∷ ws) es k e =
      let gone : w.state.exited ≡ true = ground arith in
      (
        record {
          exited = gone;
          complete = exited_complete w.svc w.name b w.state k.0.events k.0.ran gone ∙ k.0.heard;
        },
        exited-IsComplete b f ws (λ k. es (suc k)) k.1 (ground arith),
      )

  wait_ends-exited : (h t : SqsHub E) → wait_ends h ≡ some t → all_exited h.own.publishers ≡ true
  unfolding wait_ends
  wait_ends-exited h t e = ground arith

  -- The wait of `Stop` ends only when every publisher has returned and is complete.
  pub wait_ends-IsComplete :
      (es : ℕ → List Event) (h t : SqsHub E)
      → AllTracked es h
      → wait_ends h ≡ some t
      → Logged IsComplete h.own.publishers es
  wait_ends-IsComplete es h t all e =
      exited-IsComplete h.own.batch_size h.own.stop_pub_chan h.own.publishers es all
        (wait_ends-exited h t e)
