-- ===== src/Rabbitmq/Fleet.antt =====
-- queues/rabbitmq/rabbitmq.go: the publisher goroutines of a transport, which one stopPubChan stops
-- and one wait group counts.
use vice.Base.{
  ℕ, zero, suc, ◌≡◌, ◌≢◌, refl, subst, ◌∙◌, Bool, true, false, List, [], ◌∷◌, ◌++◌, map, some,
  Bytes, arith, ap, sym, append-nil, concat_map-append, >>=-eq-some,
}
use mathlib.Core.Option.{some-injective}
use vice.Hub.Logs.{Logged, Logged-map, extend}
use vice.Rabbitmq.Sending.{
  Publisher, new_publisher, Event, client_send, stop, case_stop, step, run, accepted, accepted_by,
  IsPublished, run-IsPublished,
}
use vice.Rabbitmq.{Worker, signal, all_exited, worker_event, worker_at}

-- A goroutine in a state that some interleaving leads to, which has accepted exactly what the events
-- `es` of the transport's run sent to it; it has seen the signal to stop exactly if it was given.
pub record IsTracked {C : Type 0} (stopping : Bool) (es : List (Event C)) (w : Worker C)
    : Type 0 where
  pub started : Bool
  pub events : List (Event C)
  pub ran : run w.name w.queue (new_publisher started) events ≡ some w.state
  pub signalled : w.state.stopping ≡ stopping
  pub heard : accepted events ≡ accepted es

module _ {C : Type 0} where
  accepted-snoc :
      (xs ys : List (Event C)) (e : Event C)
      → accepted xs ≡ accepted ys
      → accepted (xs ++ (e ∷ [])) ≡ accepted (ys ++ (e ∷ []))
  accepted-snoc xs ys e same =
      concat_map-append accepted_by xs (e ∷ [])
      ∙ ap (λ l. l ++ accepted (e ∷ [])) same
      ∙ sym (concat_map-append accepted_by ys (e ∷ []))

  run-snoc :
      (name queue : Bytes) (s t u : Publisher C) (es : List (Event C)) (e : Event C)
      → run name queue s es ≡ some t
      → step name queue t e ≡ some u
      → run name queue s (es ++ (e ∷ [])) ≡ some u
  unfolding run
  run-snoc name queue s t u [] e h st = ground arith
  run-snoc name queue s t u (d ∷ es) e h st =
      let (v, now, later) = >>=-eq-some (step name queue s d) _ h in
      rw now (run-snoc name queue v t u es e later st)

  step-stopping :
      (name queue : Bytes) (s t : Publisher C) (e : Event C)
      → e ≢ stop
      → step name queue s e ≡ some t
      → t.stopping ≡ s.stopping
  unfolding step
  step-stopping name queue s t (client_send m r) n h = ground arith
  step-stopping name queue s t stop n h = absurd (n refl)
  step-stopping name queue s t case_stop n h = ground arith

  moved :
      (f : Bool) (es : List (Event C)) (w : Worker C) (s : Publisher C) (e : Event C)
      → IsTracked f es w
      → step w.name w.queue w.state e ≡ some s
      → e ≢ stop
      → IsTracked f (es ++ (e ∷ [])) (record w { state = s })
  moved f es w s e k st other = record {
    started = k.started;
    events = k.events ++ (e ∷ []);
    ran = run-snoc w.name w.queue (new_publisher k.started) w.state s k.events e k.ran st;
    signalled = step-stopping w.name w.queue w.state s e other st ∙ k.signalled;
    heard = accepted-snoc k.events es e k.heard;
  }

  worker_event-IsTracked :
      (f : Bool) (es : List (Event C)) (w w' : Worker C) (e : Event C)
      → IsTracked f es w
      → worker_event w e ≡ some w'
      → IsTracked f (es ++ (e ∷ [])) w'
  unfolding worker_event
  worker_event-IsTracked f es w w' stop k h = absurd (ground arith)
  worker_event-IsTracked f es w w' (client_send m r) k h =
      let (s, st, same) = >>=-eq-some (step w.name w.queue w.state (client_send m r)) _ h in
      subst (IsTracked f (es ++ (client_send m r ∷ []))) (some-injective _ _ same)
        (moved f es w s (client_send m r) k st (λ n. absurd cc))
  worker_event-IsTracked f es w w' case_stop k h =
      let (s, st, same) = >>=-eq-some (step w.name w.queue w.state case_stop) _ h in
      subst (IsTracked f (es ++ (case_stop ∷ []))) (some-injective _ _ same)
        (moved f es w s case_stop k st (λ n. absurd cc))

  pub worker_at-IsTracked :
      (f : Bool) (i : ℕ) (e : Event C) (ws ws' : List (Worker C)) (es : ℕ → List (Event C))
      → Logged (IsTracked f) ws es
      → worker_at i e ws ≡ some ws'
      → Logged (IsTracked f) ws' (extend i e es)
  unfolding worker_at Logged extend
  worker_at-IsTracked f i e [] ws' es all h = absurd (ground arith)
  worker_at-IsTracked f zero e (w ∷ ws) ws' es all h =
      let (w', now, same) = >>=-eq-some (worker_event w e) _ h in
      subst (λ l. Logged (IsTracked f) l (extend zero e es)) (some-injective _ _ same)
        (worker_event-IsTracked f (es zero) w w' e all.0 now, all.1)
  worker_at-IsTracked f (suc i) e (w ∷ ws) ws' es all h =
      let (ws'', now, same) = >>=-eq-some (worker_at i e ws) _ h in
      subst (λ l. Logged (IsTracked f) l (extend (suc i) e es)) (some-injective _ _ same)
        (all.0, worker_at-IsTracked f i e ws ws'' (λ k. es (suc k)) all.1 now)

  signal_step :
      (name queue : Bytes) (s : Publisher C)
      → s.stopping ≡ false
      → step name queue s stop ≡ some (record s { stopping = true })
  unfolding step
  signal_step name queue s open_chan = ground arith

  IsTracked-signal :
      (es : List (Event C)) (w : Worker C) → IsTracked false es w → IsTracked true es (signal w)
  unfolding signal
  IsTracked-signal es w k = record {
    started = k.started;
    events = k.events ++ (stop ∷ []);
    ran =
        run-snoc w.name w.queue (new_publisher k.started) w.state
          (record w.state { stopping = true }) k.events stop k.ran
          (signal_step w.name w.queue w.state k.signalled);
    signalled = refl;
    heard =
        concat_map-append accepted_by k.events (stop ∷ [])
        ∙ append-nil (accepted k.events)
        ∙ k.heard;
  }

  pub workers_signalled :
      (ws : List (Worker C)) (es : ℕ → List (Event C))
      → Logged (IsTracked false) ws es
      → Logged (IsTracked true) (map signal ws) es
  workers_signalled = Logged-map (IsTracked false) (IsTracked true) signal IsTracked-signal

  -- A goroutine that has returned, `es` being its events: it has published in order all that was
  -- sent to it, has reported every failure, and has closed its AMQP channel.
  pub record IsFinished (es : List (Event C)) (w : Worker C) : Type 0 where
    pub exited : w.state.exited ≡ true
    pub rmqch_closed : w.state.rmqch_closed ≡ true
    pub published : IsPublished w.name w.queue w.state (accepted es)

  pub all_exited-IsFinished :
      (f : Bool) (ws : List (Worker C)) (es : ℕ → List (Event C))
      → Logged (IsTracked f) ws es
      → all_exited ws ≡ true
      → Logged IsFinished ws es
  unfolding all_exited Logged
  all_exited-IsFinished f [] es all e = all
  all_exited-IsFinished f (w ∷ ws) es all e =
      let gone : w.state.exited ≡ true = ground arith in
      let k = all.0 in
      let p = run-IsPublished w.name w.queue k.started w.state k.events k.ran in
      (
        record {
          exited = gone;
          rmqch_closed = p.closes ∙ gone;
          published = subst (IsPublished w.name w.queue w.state) k.heard p;
        },
        all_exited-IsFinished f ws (λ k. es (suc k)) all.1 (ground arith),
      )
