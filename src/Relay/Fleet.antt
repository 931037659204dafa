-- ===== src/Relay/Fleet.antt =====
-- queues/redis/redis.go and queues/nats/nats.go: all publisher goroutines of a transport, which one
-- stopPubChan stops and one wait group counts.
use mathlib.Core.Option.{some-injective}
use vice.Base.{
  ℕ, zero, suc, ◌≡◌, ◌≢◌, refl, ap, subst, ◌∙◌, inl, inr, Bool, true, false, ◌&&◌, List, [], ◌∷◌,
  ◌++◌, map, Option, none, some, Bytes, arith, append-nil, concat_map-append, sym, ◌>>=◌,
  >>=-eq-some,
}
use vice.Hub.Logs.{Logged, Logged-append, Logged-map, extend}
use vice.Relay.Steps.{step-client_send, step-case_stop, step-case_message}
use vice.Relay.Order.{Follows, accepted, accepted_by, run-Follows}
use vice.Relay.{
  Relay, Event, client_send, stop, case_stop, case_message, new_relay, on_message, step, run,
}

pub record Worker (C : Type 0) : Type 0 where
  pub name : Bytes
  pub chan : ℕ
  pub state : Relay C

module _ {C : Type 0} where
  signal : Worker C → Worker C
  signal w = record w { state = record w.state { stopping = true } }

  -- close(stopPubChan), as the goroutines see it
  unfoldable pub signal_all : List (Worker C) → List (Worker C)
  unfolding signal
  signal_all = map signal

  -- wg.Wait() returns.
  unfoldable pub all_exited : List (Worker C) → Bool
  all_exited [] = true
  all_exited (w ∷ ws) = w.state.exited && all_exited ws

  unfoldable pub start_worker : Bytes → ℕ → Bool → Worker C
  start_worker name ch stopping = record { name = name; chan = ch; state = new_relay stopping }

  -- One event of one goroutine; only `signal_all` stops.
  worker_event : Worker C → Event C → Option (Worker C)
  worker_event w stop = none
  worker_event w e = step w.name w.state e >>= λ s. some (record w { state = s })

  unfoldable pub worker_at : ℕ → Event C → List (Worker C) → Option (List (Worker C))
  unfolding worker_event
  worker_at i e [] = none
  worker_at zero e (w ∷ ws) = worker_event w e >>= λ w'. some (w' ∷ ws)
  worker_at (suc i) e (w ∷ ws) = worker_at i e ws >>= λ ws'. some (w ∷ ws')

  -- A goroutine in a state that some interleaving leads to, in which its channel has accepted
  -- exactly what the events `es` of the transport's run sent to it; it has seen the signal to stop
  -- exactly if it was given.
  pub record Tracked (stopping : Bool) (es : List (Event C)) (w : Worker C) : Type 0 where
    pub started : Bool
    pub events : List (Event C)
    pub ran : run w.name (new_relay started) events ≡ some w.state
    pub signalled : w.state.stopping ≡ stopping
    pub heard : accepted events ≡ accepted es

  accepted-snoc :
      (xs ys : List (Event C)) (e : Event C)
      → accepted xs ≡ accepted ys
      → accepted (xs ++ (e ∷ [])) ≡ accepted (ys ++ (e ∷ []))
  accepted-snoc xs ys e same =
      concat_map-append accepted_by xs (e ∷ [])
      ∙ ap (λ l. l ++ accepted (e ∷ [])) same
      ∙ sym (concat_map-append accepted_by ys (e ∷ []))

  run-snoc :
      (name : Bytes) (s t u : Relay C) (es : List (Event C)) (e : Event C)
      → run name s es ≡ some t
      → step name t e ≡ some u
      → run name s (es ++ (e ∷ [])) ≡ some u
  unfolding run
  run-snoc name s t u [] e h st = ground arith
  run-snoc name s t u (d ∷ es) e h st =
      let (v, now, later) = >>=-eq-some (step name s d) _ h in
      rw now (run-snoc name v t u es e later st)

  step-stopping :
      (name : Bytes) (s t : Relay C) (e : Event C)
      → e ≢ stop
      → step name s e ≡ some t
      → t.stopping ≡ s.stopping
  unfolding on_message
  step-stopping name s t (client_send m) n h =
      ap (λ (u : Relay C). u.stopping) (step-client_send name s t m h)
  step-stopping name s t stop n h = absurd (n refl)
  step-stopping name s t (case_stop c) n h = elim (step-case_stop name s t c h).1 [
    | inl e ↦ ap (λ (u : Relay C). u.stopping) e
    | inr (e, _) ↦ ap (λ (u : Relay C). u.stopping) e
  ]
  step-stopping name s t (case_message r) n h =
      let (m, rest, _, _, e) = step-case_message name s t r h in ap (λ (u : Relay C). u.stopping) e

  worker_event-step :
      (w w' : Worker C) (e : Event C)
      → worker_event w e ≡ some w'
      → (s : Relay C) × (step w.name w.state e ≡ some s)
        × (w' ≡ record w { state = s })
        × (e ≢ stop)
  unfolding worker_event
  worker_event-step w w' stop h = absurd (ground arith)
  worker_event-step w w' (client_send m) h =
      let (s, st, e) = >>=-eq-some (step w.name w.state (client_send m)) _ h in
      (s, st, ground arith, λ n. cc)
  worker_event-step w w' (case_stop c) h =
      let (s, st, e) = >>=-eq-some (step w.name w.state (case_stop c)) _ h in
      (s, st, ground arith, λ n. cc)
  worker_event-step w w' (case_message r) h =
      let (s, st, e) = >>=-eq-some (step w.name w.state (case_message r)) _ h in
      (s, st, ground arith, λ n. cc)

  Tracked-event :
      (f : Bool) (es : List (Event C)) (w w' : Worker C) (e : Event C)
      → Tracked f es w
      → worker_event w e ≡ some w'
      → Tracked f (es ++ (e ∷ [])) w'
  Tracked-event f es w w' e k h =
      let (s, st, same, other) = worker_event-step w w' e h in
      subst (Tracked f (es ++ (e ∷ []))) (sym same) (record {
        started = k.started;
        events = k.events ++ (e ∷ []);
        ran = run-snoc w.name (new_relay k.started) w.state s k.events e k.ran st;
        signalled = step-stopping w.name w.state s e other st ∙ k.signalled;
        heard = accepted-snoc k.events es e k.heard;
      })

  -- An event of one goroutine keeps all of them tracked,
  pub worker_at-Tracked :
      (f : Bool) (i : ℕ) (e : Event C) (ws ws' : List (Worker C)) (es : ℕ → List (Event C))
      → Logged (Tracked f) ws es
      → worker_at i e ws ≡ some ws'
      → Logged (Tracked f) ws' (extend i e es)
  unfolding worker_at Logged extend
  worker_at-Tracked f i e [] ws' es all h = absurd (ground arith)
  worker_at-Tracked f zero e (w ∷ ws) ws' es all h =
      let (w', now, same) = >>=-eq-some (worker_event w e) _ h in
      subst (λ l. Logged (Tracked f) l (extend zero e es)) (some-injective _ _ same)
        (Tracked-event f (es zero) w w' e all.0 now, all.1)
  worker_at-Tracked f (suc i) e (w ∷ ws) ws' es all h =
      let (ws'', now, same) = >>=-eq-some (worker_at i e ws) _ h in
      subst (λ l. Logged (Tracked f) l (extend (suc i) e es)) (some-injective _ _ same)
        (all.0, worker_at-Tracked f i e ws ws'' (λ k. es (suc k)) all.1 now)

  signal_step :
      (name : Bytes) (s : Relay C)
      → s.stopping ≡ false
      → step name s stop ≡ some (record s { stopping = true })
  unfolding step
  signal_step name s open_chan = ground arith

  Tracked-signal :
      (es : List (Event C)) (w : Worker C) → Tracked false es w → Tracked true es (signal w)
  unfolding signal
  Tracked-signal es w k = record {
    started = k.started;
    events = k.events ++ (stop ∷ []);
    ran =
        run-snoc w.name (new_relay k.started) w.state (record w.state { stopping = true }) k.events
          stop k.ran (signal_step w.name w.state k.signalled);
    signalled = refl;
    heard =
        concat_map-append accepted_by k.events (stop ∷ [])
        ∙ append-nil (accepted k.events)
        ∙ k.heard;
  }

  -- so does the signal to stop,
  pub signal_all-Tracked :
      (ws : List (Worker C)) (es : ℕ → List (Event C))
      → Logged (Tracked false) ws es
      → Logged (Tracked true) (signal_all ws) es
  unfolding signal_all
  signal_all-Tracked = Logged-map (Tracked false) (Tracked true) signal Tracked-signal

  -- and so does the start of another one.
  pub start_worker-Tracked :
      (name : Bytes) (ch : ℕ) (f : Bool) (ws : List (Worker C)) (es : ℕ → List (Event C))
      → Logged (Tracked f) ws es
      → Logged (Tracked f) (ws ++ (start_worker name ch f ∷ [])) es
  unfolding start_worker run new_relay
  start_worker-Tracked name ch f ws es =
      Logged-append (Tracked f) ws _ es
        (record { started = f; events = []; ran = refl; signalled = refl; heard = refl })

  -- A goroutine that has returned, `es` being its events: all that was sent to its channel is what
  -- it sent, in order, and then what it left in the channel or the channel has taken since; every
  -- failure is reported.
  pub record IsComplete (es : List (Event C)) (w : Worker C) : Type 0 where
    pub exited : w.state.exited ≡ true
    pub follows : Follows w.name w.state (accepted es)

  -- When the wait for the goroutines ends, each of them is complete.
  pub all_exited-IsComplete :
      (f : Bool) (ws : List (Worker C)) (es : ℕ → List (Event C))
      → Logged (Tracked f) ws es
      → all_exited ws ≡ true
      → Logged IsComplete ws es
  unfolding all_exited Logged
  all_exited-IsComplete f [] es all e = all
  all_exited-IsComplete f (w ∷ ws) es all e = (
    record {
      exited = ground arith;
      follows =
          subst (Follows w.name w.state) all.0.heard
            (run-Follows w.name all.0.started w.state all.0.events all.0.ran);
    },
    all_exited-IsComplete f ws (λ k. es (suc k)) all.1 (ground arith),
  )
