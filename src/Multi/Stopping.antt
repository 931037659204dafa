-- ===== src/Multi/Stopping.antt =====
-- queues/sqs/multi_writer.go: whole runs of a transport, from `NewMulti` to the end of `Stop`.
use vice.Base.{
  ℕ, ◌≡◌, ◌∙◌, refl, subst, sym, Bool, true, false, List, [], map, some, Bytes, arith, >>=-eq-some,
}
use mathlib.Core.Option.{some-injective}
use vice.Sqs.Service.{Service, Cause}
use vice.Sqs.Transport.{NewService}
use vice.Hub.{sending, receiving, made}
use vice.Hub.Runs.{Machine, Action, acts, MakerKeeps, obtain-keeps}
use vice.Hub.Waiting.{Maintains, Waited, acts-Waited}
use vice.Hub.Logs.{Logged, Logged-append, extend, heard, nothing}
use vice.Multi.Batching
use vice.Multi.Batching.{new_batcher}
use vice.Multi.Group
use vice.Multi.Group.{new_group}
use vice.Multi.Wiring.{LineEvent, signal, all_returned, line_at}
use vice.Multi.Wiring.Tracked.{IsTracked, line_at-IsTracked}
use vice.Multi.Wiring.Delivered.{lines_signalled, IsDelivered, all_returned-IsDelivered}
use vice.Multi.Makers.{
  SameWriters, publishers-made, publishers_failed-fields, subscriber-fields, no_subscriber-fields,
}
use vice.Multi.{
  Own, MultiHub, new_multi, make_publishers, make_subscriber, send, receive, line_event,
  stop_begins, wait_ends, stop_ends,
}

-- All lines are tracked, and `Stop` is not past its wait.
record IsWatched {E : Type 0} (es : ℕ → List LineEvent) (o : Own E) : Type 0 where
  tracked : Logged (IsTracked o.batch_size o.stop_pub_chan false) o.lines es
  not_waited : o.waited ≡ false
  open_chan : o.stopchan ≡ false

new_line-IsTracked :
    {E : Type 0} (batch_size : ℕ) (f d : Bool) (name : Bytes) (ch : ℕ) (svcs : List (Service E))
    → d ≡ false
    → IsTracked batch_size f false []
        (record { name = name; chan = ch; batcher = new_batcher f; group = new_group svcs d })
unfolding Batching.run Group.run new_batcher new_group
new_line-IsTracked batch_size f d name ch svcs going = record {
  started = f;
  events = [];
  ran = refl;
  svcs = svcs;
  opened = d;
  moves = [];
  worked = refl;
  linked = refl;
  signalled = refl;
  finished = going;
  heard = refl;
}

module _ {E : Type 0} (create : ℕ → Bytes → NewService E) where
  abbrev pub multi_transport : Machine (Own E) (Cause E) (ℕ × LineEvent)
  multi_transport = record {
    send = send create;
    receive = receive create;
    event = λ e h. line_event e.0 e.1 h;
    stop_begins = stop_begins;
    wait_ends = wait_ends;
    stop_ends = stop_ends;
  }

  IsWatched-same :
      (es : ℕ → List LineEvent) (h t : MultiHub E)
      → SameWriters create h t
      → IsWatched es h.own
      → IsWatched es t.own
  IsWatched-same es h t (size, flag, waited, closed, same) w = record {
    tracked = rw (size, flag, same) w.tracked;
    not_waited = waited ∙ w.not_waited;
    open_chan = closed ∙ w.open_chan;
  }

  IsWatched-made :
      (es : ℕ → List LineEvent) (name : Bytes) (h t : MultiHub E) (ch : ℕ)
      → make_publishers create name h ≡ made t ch
      → IsWatched es h.own
      → IsWatched es t.own
  IsWatched-made es name h t ch m w =
      let (k, svcs, (here, same)) = publishers-made create name h t ch m in
      let o = h.own in
      subst (λ (u : MultiHub E). IsWatched es u.own) (sym same)
        (record {
          tracked =
              Logged-append _ o.lines _ es
                (new_line-IsTracked o.batch_size o.stop_pub_chan o.stopchan name h.chans svcs
                  w.open_chan)
                w.tracked;
          not_waited = w.not_waited;
          open_chan = w.open_chan;
        })

  publishers-Keeps : (es : ℕ → List LineEvent) → MakerKeeps (make_publishers create) (IsWatched es)
  publishers-Keeps es = record {
    when_made = IsWatched-made es;
    when_failed =
        λ name h t e m. IsWatched-same es h t (publishers_failed-fields create name h t e m);
  }

  subscriber-Keeps : (es : ℕ → List LineEvent) → MakerKeeps (make_subscriber create) (IsWatched es)
  subscriber-Keeps es = record {
    when_made = λ name h t ch m. IsWatched-same es h t (subscriber-fields create name h t ch m);
    when_failed = λ name h t e m. IsWatched-same es h t (no_subscriber-fields create name h t e m);
  }

  stop_begins-IsWatched :
      (es : ℕ → List LineEvent) (h t : MultiHub E)
      → stop_begins h ≡ some t
      → IsWatched es h.own
      → IsWatched es t.own
  unfolding stop_begins
  stop_begins-IsWatched es h t e w =
      let open_chan : h.own.stop_pub_chan ≡ false = ground arith in
      let size : t.own.batch_size ≡ h.own.batch_size = ground arith in
      let closed : t.own.stop_pub_chan ≡ true = ground arith in
      let waited : t.own.waited ≡ h.own.waited = ground arith in
      let going : t.own.stopchan ≡ h.own.stopchan = ground arith in
      let same : t.own.lines ≡ map signal h.own.lines = ground arith in
      let all : Logged (IsTracked h.own.batch_size false false) h.own.lines es =
        subst (λ g. Logged (IsTracked h.own.batch_size g false) h.own.lines es) open_chan
          w.tracked in
      record {
        tracked =
            rw (size, closed, same) (lines_signalled h.own.batch_size false h.own.lines es all);
        not_waited = waited ∙ w.not_waited;
        open_chan = going ∙ w.open_chan;
      }

  wait_ends-returned : (h t : MultiHub E) → wait_ends h ≡ some t → all_returned h.own.lines ≡ true
  unfolding wait_ends
  wait_ends-returned h t e = ground arith

  stop_ends-waited : (h t : MultiHub E) → stop_ends h ≡ some t → h.own.waited ≡ true
  unfolding stop_ends
  stop_ends-waited h t e = ground arith

  event-IsWatched :
      (es : ℕ → List LineEvent) (i : ℕ) (e : LineEvent) (h t : MultiHub E)
      → line_event i e h ≡ some t
      → IsWatched es h.own
      → IsWatched (extend i e es) t.own
  unfolding line_event
  event-IsWatched es i e h t r w =
      let (ls, now, same) = >>=-eq-some (line_at h.own.batch_size i e h.own.lines) _ r in
      subst (λ (u : MultiHub E). IsWatched (extend i e es) u.own) (some-injective _ _ same)
        (record {
          tracked =
              line_at-IsTracked h.own.batch_size h.own.stop_pub_chan false i e h.own.lines ls es
                w.tracked now;
          not_waited = w.not_waited;
          open_chan = w.open_chan;
        })

  multi-Maintains : Maintains multi_transport (λ o. o.stopchan) IsWatched
  unfolding send receive
  multi-Maintains = record {
    send_keeps =
        λ es. obtain-keeps sending (make_publishers create) (IsWatched es) (publishers-Keeps es);
    receive_keeps =
        λ es. obtain-keeps receiving (make_subscriber create) (IsWatched es) (subscriber-Keeps es);
    event_keeps = event-IsWatched;
    begin_keeps = stop_begins-IsWatched;
    end_waits =
        λ es h t e w. let was = stop_ends-waited h t e in let not_yet = w.not_waited in absurd cc;
    still_open = λ es o w. w.open_chan;
  }

  new-IsWatched :
      (writers size interval : ℕ) → IsWatched {E = E} nothing (new_multi writers size interval).own
  unfolding new_multi Logged
  new-IsWatched writers size interval = record {
    tracked = λ i. refl;
    not_waited = refl;
    open_chan = refl;
  }

  -- A run of calls and events, in any order, that leads from a new transport with several writers
  -- to one whose `Done` is closed has a point at which the wait of `Stop` ends. There, on every send
  -- channel, the goroutine that batches has returned, having handed over, in order and but for what
  -- the channel still holds, all that clients sent to it in the run until then; each message handed
  -- over was written, or is with a writer or with the dispatcher; and no dispatcher and no writer
  -- has returned.
  pub multi_acts-IsDelivered :
      (writers size interval : ℕ) (path : List (Action (ℕ × LineEvent))) (t : MultiHub E)
      → acts multi_transport path (new_multi writers size interval) ≡ some t
      → t.own.stopchan ≡ true
      → (w : Waited multi_transport path (new_multi writers size interval) t) × Logged IsDelivered
          w.waiting.own.lines
          (heard w.before nothing)
  multi_acts-IsDelivered writers size interval path t e done =
      let (w, watched) =
        acts-Waited multi_transport (λ o. o.stopchan) IsWatched multi-Maintains path nothing
          (new_multi writers size interval) t e done (new-IsWatched writers size interval) in
      (
        w,
        all_returned-IsDelivered w.waiting.own.batch_size w.waiting.own.stop_pub_chan
            w.waiting.own.lines (heard w.before nothing) watched.tracked
            (wait_ends-returned w.waiting w.past w.waits),
      )
