-- ===== src/Multi.antt =====
-- queues/sqs/multi_writer.go: the transport with several writers to a queue, from `NewMulti` to
-- `Done`. `NewService` is a parameter, as in Sqs/Transport, and the goroutine of `makeSubscriber` is
-- that of Sqs/Subscriber, whose text it repeats. An int is a natural number: a negative number of
-- writers or size of a batch makes `make` panic.
pub mod Batching
pub mod Group
pub mod Wiring
pub mod Makers
pub mod Stopping
mod Examples
use vice.Base.{
  ℕ, zero, suc, ◌+◌, Bool, true, false, not, ◌&&◌, ◌||◌, List, [], ◌∷◌, ◌++◌, map, Option, none,
  some, Bytes, ltb, ◌==◌, if◌then◌else◌, ◌>>=◌,
}
use vice.Hub.{
  Answer, gives, refuses, Hub, Made, made, not_made, obtain, new_chan, sending, receiving,
}
use vice.Sqs.Service.{Service, Cause, service}
use vice.Sqs.Region.{region_from_url}
use vice.Sqs.Transport.{Poller, NewService, no_service, new_service, default_interval}
use vice.Multi.Batching.{new_batcher}
use vice.Multi.Group.{new_group}
use vice.Multi.Wiring.{Line, LineEvent, signal, finish, all_returned, line_at}

pub record Own (E : Type 0) : Type 0 where
  pub writers : ℕ
  pub batch_size : ℕ
  pub batch_interval : ℕ
  pub lines : List (Line E)
  pub subscribers : List (Poller E)
  pub stop_sub_chan : Bool  -- closed
  pub stop_pub_chan : Bool
  pub waited : Bool  -- `Stop` is past its wait
  pub stopchan : Bool
  pub services : ℕ  -- calls of NewService so far

abbrev pub MultiHub : Type 0 → Type 0
MultiHub E = Hub (Own E) (Cause E)

unfoldable pub new_multi : {E : Type 0} → ℕ → ℕ → ℕ → MultiHub E
new_multi writers batch_size batch_interval = record {
  send_chans = [];
  receive_chans = [];
  err_chan = [];
  chans = 0;
  own = record {
    writers = if writers == 0 then 2 else writers;
    batch_size = if ltb 10 batch_size then 10 else batch_size;
    batch_interval = if batch_interval == 0 then default_interval else batch_interval;
    lines = [];
    subscribers = [];
    stop_sub_chan = false;
    stop_pub_chan = false;
    waited = false;
    stopchan = false;
    services = 0;
  };
}

module _ {E : Type 0} (create : ℕ → Bytes → NewService E) where
  -- The call of `NewService`, counted.
  counted : MultiHub E → MultiHub E
  counted h = record h { own = record h.own { services = h.own.services + 1 } }

  -- The first loop of `newWriterGroup`: a service for each writer, or the first error.
  pub make_services : ℕ → Bytes → MultiHub E → MultiHub E × Answer (List (Service E)) E
  unfolding counted
  make_services zero region h = (h, gives [])
  make_services (suc n) region h = elim (create h.own.services region) [
    | no_service e ↦ (counted h, refuses e)
    | new_service svc ↦
        let (t, rest) = make_services n region (counted h) in
        elim rest [ gives svcs ↦ (t, gives (svc ∷ svcs)) | refuses e ↦ (t, refuses e) ]
  ]

  unfoldable pub make_subscriber : Bytes → MultiHub E → Made (Own E) (Cause E)
  unfolding counted new_chan
  make_subscriber name h = elim (create h.own.services (region_from_url name)) [
    | no_service e ↦ not_made (counted h) (service e)
    | new_service svc ↦
        let (h', ch) = new_chan (counted h) in
        let poller : Poller E = record { name = name; chan = ch; svc = svc } in
        made
          (record h' { own = record h'.own { subscribers = h'.own.subscribers ++ (poller ∷ []) } })
          ch
  ]

  unfoldable pub make_publishers : Bytes → MultiHub E → Made (Own E) (Cause E)
  unfolding new_chan
  make_publishers name h =
      let (t, result) = make_services h.own.writers (region_from_url name) h in
      elim result [
        | refuses e ↦ not_made t (service e)
        | gives svcs ↦
            let (t', ch) = new_chan t in
            let line : Line E = record {
              name = name;
              chan = ch;
              batcher = new_batcher t'.own.stop_pub_chan;
              group = new_group svcs t'.own.stopchan;
            } in
            made (record t' { own = record t'.own { lines = t'.own.lines ++ (line ∷ []) } }) ch
      ]

  unfoldable pub receive : Bytes → MultiHub E → Option (MultiHub E × ℕ)
  receive = obtain receiving make_subscriber

  unfoldable pub send : Bytes → MultiHub E → Option (MultiHub E × ℕ)
  send = obtain sending make_publishers

module _ {E : Type 0} where
  -- One event of line number `i`.
  unfoldable pub line_event : ℕ → LineEvent → MultiHub E → Option (MultiHub E)
  line_event i e h = line_at h.own.batch_size i e h.own.lines >>= λ ls.
      some (record h { own = record h.own { lines = ls } })

  -- `Stop` up to its wait; closing a channel twice panics (`none`).
  unfoldable pub stop_begins : MultiHub E → Option (MultiHub E)
  unfolding signal
  stop_begins h =
      if h.own.stop_sub_chan || h.own.stop_pub_chan
      then none
      else some (record h {
        own = record h.own {
          stop_sub_chan = true;
          stop_pub_chan = true;
          lines = map signal h.own.lines;
        };
      })

  -- The wait of `Stop` ends when the batchers have returned.
  unfoldable pub wait_ends : MultiHub E → Option (MultiHub E)
  wait_ends h =
      if h.own.stop_pub_chan && (not h.own.waited && all_returned h.own.lines)
      then some (record h { own = record h.own { waited = true } })
      else none

  -- The last statement of `Stop`, after its wait: `stopchan` is closed, which the dispatchers and
  -- the writers see. Other calls and events may come between the two.
  unfoldable pub stop_ends : MultiHub E → Option (MultiHub E)
  unfolding finish
  stop_ends h =
      if h.own.waited && not h.own.stopchan
      then some
          (record h { own = record h.own { stopchan = true; lines = map finish h.own.lines } })
      else none
