-- ===== src/Sqs/Transport.antt =====
-- queues/sqs/sqs.go: the transport itself, from `New` to `Done`. `NewService` is a parameter: what
-- its calls return, by their number and the region. An int is a natural number here: a negative
-- batch size makes `make` panic. A duration is a number of nanoseconds.
pub mod Makers
pub mod Stopping
pub mod Runs
mod Examples
use vice.Base.{
  ℕ, zero, suc, ◌+◌, ◌*◌, ◌^◌, Bool, true, false, not, ◌&&◌, ◌||◌, List, [], ◌∷◌, ◌++◌, map, Option,
  none, some, Bytes, ltb, ◌==◌, if◌then◌else◌, ◌>>=◌,
}
use vice.Hub.{Hub, Made, made, not_made, obtain, new_chan, sending, receiving}
use vice.Sqs.Service.{Service, Cause, service}
use vice.Sqs.Region.{region_from_url}
use vice.Sqs.Publisher.{
  Publisher, Event, client_send, stop, case_stop, case_message, case_timeout, new_publisher, step,
}

-- A goroutine, the queue it serves and its channel.
pub record Worker (E : Type 0) : Type 0 where
  pub name : Bytes
  pub chan : ℕ
  pub svc : Service E
  pub state : Publisher E

pub record Poller (E : Type 0) : Type 0 where
  pub name : Bytes
  pub chan : ℕ
  pub svc : Service E

pub record Own (E : Type 0) : Type 0 where
  pub batch_size : ℕ
  pub batch_interval : ℕ
  pub publishers : List (Worker E)  -- counted by the wait group until they return
  pub subscribers : List (Poller E)
  pub stop_sub_chan : Bool  -- closed
  pub stop_pub_chan : Bool
  pub waited : Bool  -- `Stop` is past its wait
  pub stopchan : Bool
  pub services : ℕ  -- calls of NewService so far

pub data NewService (E : Type 0) : Type 0 where
  no_service : E → NewService E
  new_service : Service E → NewService E

-- 200 * time.Millisecond
abbrev pub default_interval : ℕ
default_interval = 200 * 1_000_000

abbrev pub SqsHub : Type 0 → Type 0
SqsHub E = Hub (Own E) (Cause E)

unfoldable pub new : {E : Type 0} → ℕ → ℕ → SqsHub E
new batch_size batch_interval = record {
  send_chans = [];
  receive_chans = [];
  err_chan = [];
  chans = 0;
  own = record {
    batch_size = if ltb 10 batch_size then 10 else batch_size;
    batch_interval = if batch_interval == 0 then default_interval else batch_interval;
    publishers = [];
    subscribers = [];
    stop_sub_chan = false;
    stop_pub_chan = false;
    waited = false;
    stopchan = false;
    services = 0;
  };
}

module _ {E : Type 0} (create : ℕ → Bytes → NewService E) where
  -- The call of `NewService`, counted.
  counted : SqsHub E → SqsHub E
  counted h = record h { own = record h.own { services = h.own.services + 1 } }

  unfoldable pub make_subscriber : Bytes → SqsHub E → Made (Own E) (Cause E)
  unfolding counted new_chan
  make_subscriber name h = elim (create h.own.services (region_from_url name)) [
    | no_service e ↦ not_made (counted h) (service e)
    | new_service svc ↦
        let (h', ch) = new_chan (counted h) in
        let poller : Poller E = record { name = name; chan = ch; svc = svc } in
        made
          (record h' { own = record h'.own { subscribers = h'.own.subscribers ++ (poller ∷ []) } })
          ch
  ]

  unfoldable pub make_publisher : Bytes → SqsHub E → Made (Own E) (Cause E)
  unfolding counted new_chan
  make_publisher name h = elim (create h.own.services (region_from_url name)) [
    | no_service e ↦ not_made (counted h) (service e)
    | new_service svc ↦
        let (h', ch) = new_chan (counted h) in
        let worker : Worker E = record {
          name = name;
          chan = ch;
          svc = svc;
          state = record new_publisher { stopping = h.own.stop_pub_chan };
        } in
        made (record h' { own = record h'.own { publishers = h'.own.publishers ++ (worker ∷ []) } })
          ch
  ]

  unfoldable pub receive : Bytes → SqsHub E → Option (SqsHub E × ℕ)
  receive = obtain receiving make_subscriber

  unfoldable pub send : Bytes → SqsHub E → Option (SqsHub E × ℕ)
  send = obtain sending make_publisher

-- The goroutine sees stopPubChan closed.
signal : {E : Type 0} → Worker E → Worker E
signal w = record w { state = record w.state { stopping = true } }

-- `Stop` up to its wait: it closes the two channels; closing one twice panics (`none`).
unfoldable pub stop_begins : {E : Type 0} → SqsHub E → Option (SqsHub E)
unfolding signal
stop_begins h =
    if h.own.stop_sub_chan || h.own.stop_pub_chan
    then none
    else some (record h {
      own = record h.own {
        stop_sub_chan = true;
        stop_pub_chan = true;
        publishers = map signal h.own.publishers;
      };
    })

all_exited : {E : Type 0} → List (Worker E) → Bool
all_exited [] = true
all_exited (w ∷ ws) = w.state.exited && all_exited ws

-- The wait of `Stop` ends when each publisher has returned.
unfoldable pub wait_ends : {E : Type 0} → SqsHub E → Option (SqsHub E)
unfolding all_exited
wait_ends h =
    if h.own.stop_pub_chan && (not h.own.waited && all_exited h.own.publishers)
    then some (record h { own = record h.own { waited = true } })
    else none

-- The last statement of `Stop`, after its wait: `Done` is closed. Other calls and events may come
-- between the two.
unfoldable pub stop_ends : {E : Type 0} → SqsHub E → Option (SqsHub E)
stop_ends h =
    if h.own.waited && not h.own.stopchan
    then some (record h { own = record h.own { stopchan = true } })
    else none

-- One event of publisher number `i`; only `stop_begins` stops.
worker_event : {E : Type 0} → ℕ → Worker E → Event → Option (Worker E)
worker_event batch_size w stop = none
worker_event batch_size w e =
    step w.svc w.name batch_size w.state e >>= λ s. some (record w { state = s })

worker_at : {E : Type 0} → ℕ → ℕ → Event → List (Worker E) → Option (List (Worker E))
unfolding worker_event
worker_at batch_size i e [] = none
worker_at batch_size zero e (w ∷ ws) = worker_event batch_size w e >>= λ w'. some (w' ∷ ws)
worker_at batch_size (suc i) e (w ∷ ws) = worker_at batch_size i e ws >>= λ ws'. some (w ∷ ws')

unfoldable pub publisher_event : {E : Type 0} → ℕ → Event → SqsHub E → Option (SqsHub E)
unfolding worker_at
publisher_event i e h = worker_at h.own.batch_size i e h.own.publishers >>= λ ws.
    some (record h { own = record h.own { publishers = ws } })
