-- ===== src/Rabbitmq.antt =====
-- queues/rabbitmq: the transport over RabbitMQ. The client library is a parameter: connections are
-- of any type, and what it answers to a request is a function of the requests made before. Channels
-- of the library ("AMQP channels") are numbered in the order in which they are opened.
pub mod Sending
pub mod Consuming
pub mod Setup
pub mod Fields
pub mod Fleet
pub mod Stopping
mod Examples
use vice.Base.{
  ℕ, zero, suc, ◌+◌, Bool, true, false, not, ◌&&◌, ◌||◌, List, [], ◌∷◌, ◌++◌, map, Option, none,
  some, Bytes, if◌then◌else◌, ◌>>=◌,
}
use vice.Hub.{
  Answer, gives, refuses, Hub, Made, made, not_made, obtain, new_chan, sending, receiving,
}
use vice.Rabbitmq.Sending.{Publisher, new_publisher, Event, stop, step}

-- options.go
pub record Options (Conn : Type 0) : Type 0 where
  pub connection : Option Conn

unfoldable pub with_connection : {Conn : Type 0} → Conn → Options Conn → Options Conn
with_connection c o = record o { connection = some c }

unfoldable pub apply_options :
    {Conn : Type 0} → List (Options Conn → Options Conn) → Options Conn → Options Conn
apply_options [] o = o
apply_options (f ∷ fs) o = apply_options fs (f o)

-- The requests that set up a goroutine, with the AMQP channel that they go through and the flags
-- that the code gives.
pub data Request : Type 0 where
  open_channel : Request
  queue_declare :
      (rmqch : ℕ) (name : Bytes) (durable auto_delete exclusive no_wait : Bool) → Request
  qos : (rmqch prefetch_count prefetch_size : ℕ) (global : Bool) → Request
  consume :
      (rmqch : ℕ) (queue consumer : Bytes) (auto_ack exclusive no_local no_wait : Bool) → Request

pub record Library (Conn C : Type 0) : Type 0 where
  pub dial : ℕ → Answer Conn C
  pub answer : List Request → Request → Option C
  pub queue_name : List Request → Bytes → Bytes  -- the name of a declared queue

pub record Worker (C : Type 0) : Type 0 where
  pub name : Bytes
  pub chan : ℕ
  pub rmqch : ℕ
  pub queue : Bytes
  pub state : Publisher C

pub record Consumer : Type 0 where
  pub name : Bytes
  pub chan : ℕ
  pub rmqch : ℕ

pub record Own (Conn C : Type 0) : Type 0 where
  pub connection : Option Conn
  pub dials : ℕ
  pub requests : List Request
  pub channels : ℕ  -- AMQP channels opened so far, the number of the next
  pub publishers : List (Worker C)
  pub subscribers : List Consumer
  pub closed : List Conn  -- connections that `Stop` has closed
  pub stop_sub_chan : Bool  -- closed
  pub stop_pub_chan : Bool
  pub waited : Bool  -- `Stop` is past its wait
  pub stopchan : Bool

abbrev pub RabbitHub : Type 0 → Type 0 → Type 0
RabbitHub Conn C = Hub (Own Conn C) C

unfoldable pub new : {Conn C : Type 0} → List (Options Conn → Options Conn) → RabbitHub Conn C
unfolding apply_options
new opts = record {
  send_chans = [];
  receive_chans = [];
  err_chan = [];
  chans = 0;
  own = record {
    connection = (apply_options opts (record { connection = none })).connection;
    dials = 0;
    requests = [];
    channels = 0;
    publishers = [];
    subscribers = [];
    closed = [];
    stop_sub_chan = false;
    stop_pub_chan = false;
    waited = false;
    stopchan = false;
  };
}

-- How `open_queue` ends: with an AMQP channel and a declared queue, or with an error.
pub data Opened (Conn C : Type 0) : Type 0 where
  opened : RabbitHub Conn C → (rmqch : ℕ) → (queue : Bytes) → Opened Conn C
  not_opened : RabbitHub Conn C → C → Opened Conn C

module _ {Conn C : Type 0} (lib : Library Conn C) where
  unfoldable pub new_connection : RabbitHub Conn C → RabbitHub Conn C × Answer Conn C
  new_connection h = elim h.own.connection [
    | some c ↦ (h, gives c)
    | none ↦
        let t = record h { own = record h.own { dials = h.own.dials + 1 } } in
        elim (lib.dial h.own.dials) [
          | gives c ↦ (record t { own = record t.own { connection = some c } }, gives c)
          | refuses e ↦ (t, refuses e)
        ]
  ]

  -- One request, and the error that it returns.
  unfoldable pub ask : Request → RabbitHub Conn C → RabbitHub Conn C × Option C
  ask r h = (
    record h { own = record h.own { requests = h.own.requests ++ (r ∷ []) } },
    lib.answer h.own.requests r,
  )

  -- What both makers begin with: the connection, an AMQP channel, and the queue.
  unfoldable pub open_queue : Bytes → RabbitHub Conn C → Opened Conn C
  unfolding new_connection ask
  open_queue name h =
      let (h₁, c) = new_connection h in
      elim c [
        | refuses e ↦ not_opened h₁ e
        | gives conn ↦
            let (h₂, err) = ask open_channel h₁ in
            elim err [
              | some e ↦ not_opened h₂ e
              | none ↦
                  let rmqch = h₂.own.channels in
                  let h₃ = record h₂ { own = record h₂.own { channels = rmqch + 1 } } in
                  let (h₄, err₂) = ask (queue_declare rmqch name true false false false) h₃ in
                  elim err₂ [
                    | some e ↦ not_opened h₄ e
                    | none ↦ opened h₄ rmqch (lib.queue_name h₃.own.requests name)
                  ]
            ]
      ]

  unfoldable pub make_subscriber : Bytes → RabbitHub Conn C → Made (Own Conn C) C
  unfolding open_queue ask new_chan
  make_subscriber name h = elim (open_queue name h) [
    | not_opened h₁ e ↦ not_made h₁ e
    | opened h₁ rmqch queue ↦
        let (h₂, err) = ask (qos rmqch 1 0 false) h₁ in
        elim err [
          | some e ↦ not_made h₂ e
          | none ↦
              let (h₃, err₂) = ask (consume rmqch queue [] false false false false) h₂ in
              elim err₂ [
                | some e ↦ not_made h₃ e
                | none ↦
                    let (h₄, ch) = new_chan h₃ in
                    let consumer : Consumer = record { name = name; chan = ch; rmqch = rmqch } in
                    made
                      (record h₄ {
                        own = record h₄.own { subscribers = h₄.own.subscribers ++ (consumer ∷ []) };
                      })
                      ch
              ]
        ]
  ]

  unfoldable pub make_publisher : Bytes → RabbitHub Conn C → Made (Own Conn C) C
  unfolding open_queue new_chan
  make_publisher name h = elim (open_queue name h) [
    | not_opened h₁ e ↦ not_made h₁ e
    | opened h₁ rmqch queue ↦
        let (h₂, ch) = new_chan h₁ in
        let worker : Worker C = record {
          name = name;
          chan = ch;
          rmqch = rmqch;
          queue = queue;
          state = new_publisher h₂.own.stop_pub_chan;
        } in
        made (record h₂ { own = record h₂.own { publishers = h₂.own.publishers ++ (worker ∷ []) } })
          ch
  ]

  unfoldable pub receive : Bytes → RabbitHub Conn C → Option (RabbitHub Conn C × ℕ)
  receive = obtain receiving make_subscriber

  unfoldable pub send : Bytes → RabbitHub Conn C → Option (RabbitHub Conn C × ℕ)
  send = obtain sending make_publisher

-- The goroutine sees stopPubChan closed.
pub signal : {C : Type 0} → Worker C → Worker C
signal w = record w { state = record w.state { stopping = true } }

-- wg.Wait() returns.
unfoldable pub all_exited : {C : Type 0} → List (Worker C) → Bool
all_exited [] = true
all_exited (w ∷ ws) = w.state.exited && all_exited ws

module _ {Conn C : Type 0} where
  -- `Stop` up to its wait; closing a channel twice panics (`none`).
  unfoldable pub stop_begins : RabbitHub Conn C → Option (RabbitHub Conn C)
  unfolding signal
  stop_begins h =
      if h.own.stop_sub_chan || h.own.stop_pub_chan
      then none
      else some (record h {
        own = record h.own {
          stop_sub_chan = true;
          stop_pub_chan = true;
          publishers = map signal h.own.publishers;
        };
      })

  -- The wait of `Stop` ends when the publishers have returned.
  unfoldable pub wait_ends : RabbitHub Conn C → Option (RabbitHub Conn C)
  wait_ends h =
      if h.own.stop_pub_chan && (not h.own.waited && all_exited h.own.publishers)
      then some (record h { own = record h.own { waited = true } })
      else none

  -- `Stop` after its wait: it closes the connection, a panic (`none`) if there is none yet, and
  -- `Done`. Other calls and events may come between the wait and this; none of them reads what
  -- this changes, so its two statements are one step.
  unfoldable pub stop_ends : RabbitHub Conn C → Option (RabbitHub Conn C)
  stop_ends h =
      if h.own.waited && not h.own.stopchan
      then (elim h.own.connection [
        | none ↦ none
        | some c ↦
            some (record h {
              own = record h.own { closed = h.own.closed ++ (c ∷ []); stopchan = true };
            })
      ])
      else none

-- One event of one goroutine; only `stop_begins` stops.
worker_event : {C : Type 0} → Worker C → Event C → Option (Worker C)
worker_event w stop = none
worker_event w e = step w.name w.queue w.state e >>= λ s. some (record w { state = s })

unfoldable pub worker_at : {C : Type 0} → ℕ → Event C → List (Worker C) → Option (List (Worker C))
unfolding worker_event
worker_at i e [] = none
worker_at zero e (w ∷ ws) = worker_event w e >>= λ w'. some (w' ∷ ws)
worker_at (suc i) e (w ∷ ws) = worker_at i e ws >>= λ ws'. some (w ∷ ws')

unfoldable pub publisher_event :
    {Conn C : Type 0} → ℕ → Event C → RabbitHub Conn C → Option (RabbitHub Conn C)
publisher_event i e h = worker_at i e h.own.publishers >>= λ ws.
    some (record h { own = record h.own { publishers = ws } })
