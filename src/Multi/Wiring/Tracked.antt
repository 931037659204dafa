-- ===== src/Multi/Wiring/Tracked.antt =====
-- queues/sqs/multi_writer.go: the lines of a transport, which one stopPubChan stops, one wait group
-- counts and one stopchan ends.
use vice.Base.{
  ℕ, zero, suc, ◌≡◌, refl, ap, subst, sym, Bytes, concat_map, append-nil, concat_map-append, ◌∙◌,
  Bool, List, [], ◌∷◌, ◌++◌, some, arith, ◌>>=◌, >>=-eq-some,
}
use mathlib.Core.Option.{some-injective}
use vice.Sqs.Service.{Service}
use vice.Multi.Batching
use vice.Multi.Batching.{Batcher, new_batcher, in_hand, returned}
use vice.Multi.Batching.Quiet as BatcherQuiet
use vice.Hub.Logs.{Logged, extend}
use vice.Multi.Batching.Order.{accepted, accepted_by}
use vice.Multi.Batching.Moves.{run-append}
use vice.Multi.Group
use vice.Multi.Group.{Group, new_group}
use vice.Multi.Group.Quiet as GroupQuiet
use vice.Multi.Wiring.{
  Line, LineEvent, batches, hands, works, batch_event, work_event, hand_event, line_step, line_at,
}

-- What an event of a line sends to its channel.
abbrev pub sent_by : LineEvent → List Bytes
sent_by (batches e) = accepted_by e
sent_by hands = []
sent_by (works e) = []

abbrev pub sent_to : List LineEvent → List Bytes
sent_to = concat_map sent_by

-- A line in a state that some interleavings of its two parts lead to: its channel has accepted
-- exactly what the events `es` of the transport's run sent to it, what the dispatcher has received
-- is what the batcher has handed over, and each part has seen its signal exactly if it was given.
pub record IsTracked {E : Type 0} (batch_size : ℕ) (stopping done : Bool) (es : List LineEvent)
    (l : Line E) : Type 0 where
  pub started : Bool
  pub events : List Batching.Event
  pub ran : Batching.run l.name batch_size (new_batcher started) events ≡ some l.batcher
  pub svcs : List (Service E)
  pub opened : Bool
  pub moves : List Group.Event
  pub worked : Group.run (new_group svcs opened) moves ≡ some l.group
  pub linked : l.group.received ≡ l.batcher.handed
  pub signalled : l.batcher.stopping ≡ stopping
  pub finished : l.group.done ≡ done
  pub heard : accepted events ≡ sent_to es

sent_to-snoc :
    (xs : List Batching.Event) (es : List LineEvent) (e : Batching.Event) (le : LineEvent)
    → accepted_by e ≡ sent_by le
    → accepted xs ≡ sent_to es
    → accepted (xs ++ (e ∷ [])) ≡ sent_to (es ++ (le ∷ []))
sent_to-snoc xs es e le sends same =
    concat_map-append accepted_by xs (e ∷ [])
    ∙ ap (λ l. l ++ (accepted_by e ++ [])) same
    ∙ ap (λ l. sent_to es ++ (l ++ [])) sends
    ∙ sym (concat_map-append sent_by es (le ∷ []))

silent_snoc :
    (es : List LineEvent) (le : LineEvent)
    → sent_by le ≡ []
    → sent_to (es ++ (le ∷ [])) ≡ sent_to es
silent_snoc es le none_sent =
    concat_map-append sent_by es (le ∷ [])
    ∙ ap (λ l. sent_to es ++ (l ++ [])) none_sent
    ∙ append-nil (sent_to es)

module _ {E : Type 0} (batch_size : ℕ) (f d : Bool) (es : List LineEvent) where
  batcher_run :
      (l : Line E) (b : Batcher) (e : Batching.Event) (started : Bool)
      (events : List Batching.Event)
      → Batching.run l.name batch_size (new_batcher started) events ≡ some l.batcher
      → Batching.step l.name batch_size l.batcher e ≡ some b
      → Batching.run l.name batch_size (new_batcher started) (events ++ (e ∷ [])) ≡ some b
  unfolding Batching.run
  batcher_run l b e started events ran s =
      run-append l.name batch_size (new_batcher started) l.batcher b events (e ∷ []) ran
        (ground arith)

  batcher_moves :
      (l : Line E) (b : Batcher) (e : Batching.Event)
      → BatcherQuiet.IsQuiet e
      → IsTracked batch_size f d es l
      → Batching.step l.name batch_size l.batcher e ≡ some b
      → IsTracked batch_size f d (es ++ (batches e ∷ [])) (record l { batcher = b })
  batcher_moves l b e q k s =
      let (handed, stopping) = BatcherQuiet.step-quiet l.name batch_size l.batcher b e q s in
      record {
        started = k.started;
        events = k.events ++ (e ∷ []);
        ran = batcher_run l b e k.started k.events k.ran s;
        svcs = k.svcs;
        opened = k.opened;
        moves = k.moves;
        worked = k.worked;
        linked = k.linked ∙ sym handed;
        signalled = stopping ∙ k.signalled;
        finished = k.finished;
        heard = sent_to-snoc k.events es e (batches e) refl k.heard;
      }

  group_moves :
      (l : Line E) (g : Group.Group E) (e : Group.Event)
      → GroupQuiet.IsQuiet e
      → IsTracked batch_size f d es l
      → Group.step l.group e ≡ some g
      → IsTracked batch_size f d (es ++ (works e ∷ [])) (record l { group = g })
  group_moves l g e q k s =
      let (received, done) = GroupQuiet.step-quiet l.group g e q s in
      record {
        started = k.started;
        events = k.events;
        ran = k.ran;
        svcs = k.svcs;
        opened = k.opened;
        moves = k.moves ++ (e ∷ []);
        worked = GroupQuiet.run-snoc (new_group k.svcs k.opened) l.group g k.moves e k.worked s;
        linked = received ∙ k.linked;
        signalled = k.signalled;
        finished = done ∙ k.finished;
        heard = k.heard ∙ sym (silent_snoc es (works e) refl);
      }

  batch_event-IsTracked :
      (l l' : Line E) (e : Batching.Event)
      → IsTracked batch_size f d es l
      → batch_event batch_size e l ≡ some l'
      → IsTracked batch_size f d (es ++ (batches e ∷ [])) l'
  unfolding batch_event
  batch_event-IsTracked l l' Batching.Event.stop k h = absurd (ground arith)
  batch_event-IsTracked l l' Batching.Event.queue_takes k h = absurd (ground arith)
  batch_event-IsTracked l l' (Batching.Event.client_send m) k h =
      let (b, now, same) =
        >>=-eq-some (Batching.step l.name batch_size l.batcher (Batching.Event.client_send m)) _
          h in
      subst (IsTracked batch_size f d (es ++ (batches (Batching.Event.client_send m) ∷ [])))
        (some-injective _ _ same) (batcher_moves l b _ tt k now)
  batch_event-IsTracked l l' Batching.Event.case_stop k h =
      let (b, now, same) =
        >>=-eq-some (Batching.step l.name batch_size l.batcher Batching.Event.case_stop) _ h in
      subst (IsTracked batch_size f d (es ++ (batches Batching.Event.case_stop ∷ [])))
        (some-injective _ _ same) (batcher_moves l b _ tt k now)
  batch_event-IsTracked l l' (Batching.Event.case_message t) k h =
      let (b, now, same) =
        >>=-eq-some (Batching.step l.name batch_size l.batcher (Batching.Event.case_message t)) _
          h in
      subst (IsTracked batch_size f d (es ++ (batches (Batching.Event.case_message t) ∷ [])))
        (some-injective _ _ same) (batcher_moves l b _ tt k now)
  batch_event-IsTracked l l' Batching.Event.case_timeout k h =
      let (b, now, same) =
        >>=-eq-some (Batching.step l.name batch_size l.batcher Batching.Event.case_timeout) _ h in
      subst (IsTracked batch_size f d (es ++ (batches Batching.Event.case_timeout ∷ [])))
        (some-injective _ _ same) (batcher_moves l b _ tt k now)
  batch_event-IsTracked l l' Batching.Event.wakes k h =
      let (b, now, same) =
        >>=-eq-some (Batching.step l.name batch_size l.batcher Batching.Event.wakes) _ h in
      subst (IsTracked batch_size f d (es ++ (batches Batching.Event.wakes ∷ [])))
        (some-injective _ _ same) (batcher_moves l b _ tt k now)

  quiet_work :
      (l l' : Line E) (e : Group.Event)
      → GroupQuiet.IsQuiet e
      → IsTracked batch_size f d es l
      → (Group.step l.group e >>= λ g. some (record l { group = g })) ≡ some l'
      → IsTracked batch_size f d (es ++ (works e ∷ [])) l'
  quiet_work l l' e q k h =
      let (g, now, same) = >>=-eq-some (Group.step l.group e) _ h in
      subst (IsTracked batch_size f d (es ++ (works e ∷ []))) (some-injective _ _ same)
        (group_moves l g e q k now)

  work_event-IsTracked :
      (l l' : Line E) (e : Group.Event)
      → IsTracked batch_size f d es l
      → work_event e l ≡ some l'
      → IsTracked batch_size f d (es ++ (works e ∷ [])) l'
  unfolding work_event
  work_event-IsTracked l l' (Group.Event.receives m) k h = absurd (ground arith)
  work_event-IsTracked l l' Group.Event.done_closes k h = absurd (ground arith)
  work_event-IsTracked l l' Group.Event.checks k h = quiet_work l l' _ tt k h
  work_event-IsTracked l l' Group.Event.chooses k h = quiet_work l l' _ tt k h
  work_event-IsTracked l l' Group.Event.gives k h = quiet_work l l' _ tt k h
  work_event-IsTracked l l' (Group.Event.enqueues i) k h = quiet_work l l' _ tt k h
  work_event-IsTracked l l' (Group.Event.quits i) k h = quiet_work l l' _ tt k h
  work_event-IsTracked l l' (Group.Event.writes i) k h = quiet_work l l' _ tt k h

  hand_event-IsTracked :
      (l l' : Line E)
      → IsTracked batch_size f d es l
      → hand_event batch_size l ≡ some l'
      → IsTracked batch_size f d (es ++ (hands ∷ [])) l'
  unfolding hand_event
  hand_event-IsTracked l l' k h =
      let (m, has, h₁) = >>=-eq-some (in_hand l.batcher.phase) _ h in
      let (b, takes, h₂) =
        >>=-eq-some (Batching.step l.name batch_size l.batcher Batching.Event.queue_takes) _ h₁ in
      let (g, comes, same) = >>=-eq-some (Group.step l.group (Group.Event.receives m)) _ h₂ in
      let (handed, stopping) =
        BatcherQuiet.takes-in_hand l.name batch_size l.batcher b m has takes in
      let (received, done) = GroupQuiet.receives-same l.group g m comes in
      subst (IsTracked batch_size f d (es ++ (hands ∷ []))) (some-injective _ _ same) (record {
        started = k.started;
        events = k.events ++ (Batching.Event.queue_takes ∷ []);
        ran = batcher_run l b Batching.Event.queue_takes k.started k.events k.ran takes;
        svcs = k.svcs;
        opened = k.opened;
        moves = k.moves ++ (Group.Event.receives m ∷ []);
        worked =
            GroupQuiet.run-snoc (new_group k.svcs k.opened) l.group g k.moves
              (Group.Event.receives m) k.worked comes;
        linked = received ∙ ap (λ ms. ms ++ (m ∷ [])) k.linked ∙ sym handed;
        signalled = stopping ∙ k.signalled;
        finished = done ∙ k.finished;
        heard = sent_to-snoc k.events es Batching.Event.queue_takes hands refl k.heard;
      })

  line_step-IsTracked :
      (l l' : Line E) (e : LineEvent)
      → IsTracked batch_size f d es l
      → line_step batch_size e l ≡ some l'
      → IsTracked batch_size f d (es ++ (e ∷ [])) l'
  unfolding line_step
  line_step-IsTracked l l' (batches e) k h = batch_event-IsTracked l l' e k h
  line_step-IsTracked l l' hands k h = hand_event-IsTracked l l' k h
  line_step-IsTracked l l' (works e) k h = work_event-IsTracked l l' e k h

module _ {E : Type 0} (batch_size : ℕ) (f d : Bool) where
  pub line_at-IsTracked :
      (i : ℕ) (e : LineEvent) (ls ls' : List (Line E)) (es : ℕ → List LineEvent)
      → Logged (IsTracked batch_size f d) ls es
      → line_at batch_size i e ls ≡ some ls'
      → Logged (IsTracked batch_size f d) ls' (extend i e es)
  unfolding line_at Logged extend
  line_at-IsTracked i e [] ls' es all h = absurd (ground arith)
  line_at-IsTracked zero e (l ∷ ls) ls' es all h =
      let (l', now, same) = >>=-eq-some (line_step batch_size e l) _ h in
      subst (λ us. Logged (IsTracked batch_size f d) us (extend zero e es))
        (some-injective _ _ same)
        (line_step-IsTracked batch_size f d (es zero) l l' e all.0 now, all.1)
  line_at-IsTracked (suc i) e (l ∷ ls) ls' es all h =
      let (us, now, same) = >>=-eq-some (line_at batch_size i e ls) _ h in
      subst (λ us. Logged (IsTracked batch_size f d) us (extend (suc i) e es))
        (some-injective _ _ same) (all.0, line_at-IsTracked i e ls us (λ k. es (suc k)) all.1 now)
