-- ===== src/Nsq.antt =====
-- queues/nsq/nsq.go: the transport over NSQ, from `New` to `Done`, and the goroutines behind its
-- channels. What github.com/nsqio/go-nsq does is the parameter `Library`. The functions in the
-- fields NewProducer, NewConsumer and ConnectConsumer are parameters there, with what `New` puts
-- into the fields as one of the choices.
pub mod Producing
pub mod Consuming
pub mod Makers
pub mod Progress
pub mod Stopping
pub mod Waiting
mod Examples
use vice.Base.{
  ℕ, zero, suc, ◌+◌, Bool, true, false, not, ◌&&◌, List, [], ◌∷◌, ◌++◌, map, Option, none, some,
  Bytes, length, ltb, lookup, if◌then◌else◌, ◌>>=◌,
}
use vice.Hub.{Hub, Made, made, not_made, obtain, new_chan, sending, receiving}
use vice.Backoff.{Outcome, do_retry}
use vice.Nsq.Producing.{
  Producer, Event, stop, client_send, err_takes, case_stop, step, one_second, ten_minutes,
}

-- The error that a call returns, none for nil.
pub record Library (C : Type 0) : Type 0 where
  pub new_producer : (call : ℕ) → Option C
  pub new_consumer : (call : ℕ) (name : Bytes) → Option C
  pub connect : (consumer : ℕ) (call : ℕ) → Option C

-- A consumer in the slice `consumers`.
pub record Consumer : Type 0 where
  pub name : Bytes
  pub chan : ℕ
  pub number : ℕ  -- the call of NewConsumer that made it
  pub stop_called : Bool
  pub stop_chan : Bool  -- closed by the library

pub record Worker (C : Type 0) : Type 0 where
  pub name : Bytes
  pub chan : ℕ
  pub state : Producer C

-- How far `Stop` is: not called, in the wait for the producers, in the wait for consumer number
-- `k` of the `n` that it ranges over, or at its end after `n` consumers.
pub data StopPhase : Type 0 where
  running : StopPhase
  waiting : StopPhase
  stopping : (k n : ℕ) → StopPhase
  stopped : (n : ℕ) → StopPhase

pub record Own (C : Type 0) : Type 0 where
  pub consumers : List Consumer
  pub producers : List (Worker C)
  pub new_consumers : ℕ  -- calls so far
  pub connects : ℕ  -- calls of ConnectConsumer so far, over all consumers
  pub new_producers : ℕ
  pub stop_prod_chan : Bool  -- closed
  pub stopchan : Bool
  pub phase : StopPhase

abbrev pub NsqHub : Type 0 → Type 0
NsqHub C = Hub (Own C) C

unfoldable pub new : {C : Type 0} → NsqHub C
new = record {
  send_chans = [];
  receive_chans = [];
  err_chan = [];
  chans = 0;
  own = record {
    consumers = [];
    producers = [];
    new_consumers = 0;
    connects = 0;
    new_producers = 0;
    stop_prod_chan = false;
    stopchan = false;
    phase = running;
  };
}

abbrev pub new_state : {C : Type 0} → Bool → Producer C
new_state closed = record {
  stopping = closed;
  publications = [];
  reporting = none;
  errs = [];
  producer_stopped = false;
  exited = false;
}

module _ {C : Type 0} (lib : Library C) where
  -- What `makeConsumer` does once `backoff.Do` has returned.
  pub connected : Bytes → ℕ → ℕ → Option C → NsqHub C → Made (Own C) C
  connected name ch number err h = elim err [
    | some e ↦ not_made h e
    | none ↦
        let consumer : Consumer = record {
          name = name;
          chan = ch;
          number = number;
          stop_called = false;
          stop_chan = false;
        } in
        made (record h { own = record h.own { consumers = h.own.consumers ++ (consumer ∷ []) } }) ch
  ]

  -- backoff.Do(1*time.Second, 10*time.Minute, 0, f) goes on until it is connected; `none`: the fuel
  -- does not reach so far.
  unfoldable pub make_consumer : ℕ → Bytes → NsqHub C → Option (Made (Own C) C)
  unfolding new_chan connected
  make_consumer fuel name h =
      let (h₁, ch) = new_chan h in
      let number = h₁.own.new_consumers in
      let h₂ = record h₁ { own = record h₁.own { new_consumers = number + 1 } } in
      elim (lib.new_consumer number name) [
        | some e ↦ some (not_made h₂ e)
        | none ↦ do_retry (lib.connect number) ten_minutes 0 one_second fuel >>= λ o.
            let h₃ = record h₂ { own = record h₂.own { connects = h₂.own.connects + o.calls } } in
            some (connected name ch number o.result h₃)
      ]

  unfoldable pub make_producer : Bytes → NsqHub C → Made (Own C) C
  unfolding new_chan
  make_producer name h =
      let (h₁, ch) = new_chan h in
      let call = h₁.own.new_producers in
      let h₂ = record h₁ { own = record h₁.own { new_producers = call + 1 } } in
      elim (lib.new_producer call) [
        | some e ↦ not_made h₂ e
        | none ↦
            let worker : Worker C = record {
              name = name;
              chan = ch;
              state = new_state h₂.own.stop_prod_chan;
            } in
            made
              (record h₂ { own = record h₂.own { producers = h₂.own.producers ++ (worker ∷ []) } })
              ch
      ]

  unfoldable pub receive : ℕ → Bytes → NsqHub C → Option (NsqHub C × ℕ)
  receive fuel name h = elim (lookup name h.receive_chans) [
    | some ch ↦ some (h, ch)
    | none ↦ make_consumer fuel name h >>= λ m. obtain receiving (λ _ _. m) name h
  ]

  unfoldable pub send : Bytes → NsqHub C → Option (NsqHub C × ℕ)
  send = obtain sending make_producer

-- The goroutine sees stopProdChan closed.
pub signal : {C : Type 0} → Worker C → Worker C
signal w = record w { state = record w.state { stopping = true } }

-- producersWG.Wait() returns.
unfoldable pub all_exited : {C : Type 0} → List (Worker C) → Bool
all_exited [] = true
all_exited (w ∷ ws) = w.state.exited && all_exited ws

-- c.Stop() on consumer number `i`.
unfoldable pub stop_at : ℕ → List Consumer → List Consumer
stop_at i [] = []
stop_at zero (c ∷ cs) = record c { stop_called = true } ∷ cs
stop_at (suc i) (c ∷ cs) = c ∷ stop_at i cs

-- The library closes the StopChan of a consumer that was told to stop.
unfoldable pub close_at : ℕ → List Consumer → Option (List Consumer)
close_at i [] = none
close_at zero (c ∷ cs) = if c.stop_called then some (record c { stop_chan = true } ∷ cs) else none
close_at (suc i) (c ∷ cs) = close_at i cs >>= λ cs'. some (c ∷ cs')

unfoldable pub closed_at : ℕ → List Consumer → Bool
closed_at i [] = false
closed_at zero (c ∷ cs) = c.stop_chan
closed_at (suc i) (c ∷ cs) = closed_at i cs

module _ {C : Type 0} where
  -- `Stop` up to its wait; closing a channel twice panics (`none`).
  unfoldable pub stop_begins : NsqHub C → Option (NsqHub C)
  unfolding signal
  stop_begins h =
      if h.own.stop_prod_chan
      then none
      else some (record h {
        own = record h.own {
          stop_prod_chan = true;
          producers = map signal h.own.producers;
          phase = waiting;
        };
      })

  -- The head of the loop over the consumers, before round `k` of `n`.
  unfoldable pub next_consumer : ℕ → ℕ → NsqHub C → NsqHub C
  unfolding stop_at
  next_consumer k n h =
      if ltb k n
      then record h {
        own = record h.own { consumers = stop_at k h.own.consumers; phase = stopping k n };
      }
      else record h { own = record h.own { stopchan = true; phase = stopped n } }

  -- The wait ends. The loop ranges over the consumers that there are now.
  unfoldable pub wait_ends : NsqHub C → Option (NsqHub C)
  wait_ends h = elim h.own.phase [
    | waiting ↦
        if all_exited h.own.producers
        then some (next_consumer 0 (length h.own.consumers) h)
        else none
    | running ↦ none
    | stopping k n ↦ none
    | stopped n ↦ none
  ]

  -- The receive from c.StopChan returns.
  unfoldable pub stop_seen : NsqHub C → Option (NsqHub C)
  stop_seen h = elim h.own.phase [
    | stopping k n ↦ if closed_at k h.own.consumers then some (next_consumer (k + 1) n h) else none
    | running ↦ none
    | waiting ↦ none
    | stopped n ↦ none
  ]

  unfoldable pub consumer_stops : ℕ → NsqHub C → Option (NsqHub C)
  consumer_stops i h =
      close_at i h.own.consumers >>= λ cs. some (record h { own = record h.own { consumers = cs } })

-- One event of one goroutine; only `stop_begins` stops.
pub worker_event : {C : Type 0} → Worker C → Event C → Option (Worker C)
worker_event w stop = none
worker_event w (client_send m results) =
    step w.name w.state (client_send m results) >>= λ s. some (record w { state = s })
worker_event w err_takes = step w.name w.state err_takes >>= λ s. some (record w { state = s })
worker_event w case_stop = step w.name w.state case_stop >>= λ s. some (record w { state = s })

unfoldable pub worker_at : {C : Type 0} → ℕ → Event C → List (Worker C) → Option (List (Worker C))
unfolding worker_event
worker_at i e [] = none
worker_at zero e (w ∷ ws) = worker_event w e >>= λ w'. some (w' ∷ ws)
worker_at (suc i) e (w ∷ ws) = worker_at i e ws >>= λ ws'. some (w ∷ ws')

unfoldable pub producer_event : {C : Type 0} → ℕ → Event C → NsqHub C → Option (NsqHub C)
producer_event i e h = worker_at i e h.own.producers >>= λ ws.
    some (record h { own = record h.own { producers = ws } })
