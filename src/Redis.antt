-- ===== src/Redis.antt =====
-- queues/redis: the transport over Redis lists. The client library is a parameter: clients are of
-- any type, `dial` gives the client that call number `n` of `redis.NewClient` returns and the error
-- of the `Ping` that tests it (none for nil). `closed` lists the clients that `Stop` has called `Close`
-- on.
pub mod Connection
pub mod Subscriber
pub mod Stopping
pub mod Runs
mod Examples
use vice.Base.{
  ℕ, ◌+◌, Bool, true, false, not, ◌&&◌, ◌||◌, List, [], ◌∷◌, ◌++◌, Option, none, some, Bytes,
  if◌then◌else◌, ◌>>=◌,
}
use vice.Hub.{Hub, Made, made, not_made, obtain, new_chan, sending, receiving}
use vice.Relay.{Event}
use vice.Relay.Fleet.{Worker, start_worker, signal_all, all_exited, worker_at}

-- options.go: an option sets the client.
pub record Options (Client : Type 0) : Type 0 where
  pub client : Option Client

unfoldable pub with_client : {Client : Type 0} → Client → Options Client → Options Client
with_client c o = record o { client = some c }

unfoldable pub apply_options :
    {Client : Type 0} → List (Options Client → Options Client) → Options Client → Options Client
apply_options [] o = o
apply_options (f ∷ fs) o = apply_options fs (f o)

-- A subscriber goroutine: its list, its channel and the client that it polls.
pub record Poller (Client : Type 0) : Type 0 where
  pub name : Bytes
  pub chan : ℕ
  pub client : Client

pub record Own (Client C : Type 0) : Type 0 where
  pub client : Option Client
  pub dials : ℕ  -- calls of redis.NewClient so far
  pub closed : List Client
  pub publishers : List (Worker C)
  pub subscribers : List (Poller Client)
  pub stop_sub_chan : Bool  -- closed
  pub stop_pub_chan : Bool
  pub waited : Bool  -- `Stop` is past its wait
  pub stopchan : Bool

abbrev pub RedisHub : Type 0 → Type 0 → Type 0
RedisHub Client C = Hub (Own Client C) C

unfoldable pub new :
    {Client C : Type 0} → List (Options Client → Options Client) → RedisHub Client C
unfolding apply_options
new opts = record {
  send_chans = [];
  receive_chans = [];
  err_chan = [];
  chans = 0;
  own = record {
    client = (apply_options opts (record { client = none })).client;
    dials = 0;
    closed = [];
    publishers = [];
    subscribers = [];
    stop_sub_chan = false;
    stop_pub_chan = false;
    waited = false;
    stopchan = false;
  };
}

module _ {Client C : Type 0} (dial : ℕ → Client × Option C) where
  -- The client and the error that `newConnection` returns.
  unfoldable pub new_connection : RedisHub Client C → RedisHub Client C × Client × Option C
  new_connection h = elim h.own.client [
    | some c ↦ (h, c, none)
    | none ↦
        let (c, err) = dial h.own.dials in
        (record h { own = record h.own { client = some c; dials = h.own.dials + 1 } }, c, err)
  ]

  unfoldable pub make_subscriber : Bytes → RedisHub Client C → Made (Own Client C) C
  unfolding new_connection new_chan
  make_subscriber name h =
      let (h₁, c, err) = new_connection h in
      elim err [
        | some e ↦ not_made h₁ e
        | none ↦
            let (h₂, ch) = new_chan h₁ in
            let poller : Poller Client = record { name = name; chan = ch; client = c } in
            made
              (record h₂ {
                own = record h₂.own { subscribers = h₂.own.subscribers ++ (poller ∷ []) };
              })
              ch
      ]

  unfoldable pub make_publisher : Bytes → RedisHub Client C → Made (Own Client C) C
  unfolding new_connection new_chan
  make_publisher name h =
      let (h₁, c, err) = new_connection h in
      elim err [
        | some e ↦ not_made h₁ e
        | none ↦
            let (h₂, ch) = new_chan h₁ in
            let worker = start_worker name ch h₂.own.stop_pub_chan in
            made
              (record h₂ {
                own = record h₂.own { publishers = h₂.own.publishers ++ (worker ∷ []) };
              })
              ch
      ]

  unfoldable pub receive : Bytes → RedisHub Client C → Option (RedisHub Client C × ℕ)
  receive = obtain receiving make_subscriber

  unfoldable pub send : Bytes → RedisHub Client C → Option (RedisHub Client C × ℕ)
  send = obtain sending make_publisher

module _ {Client C : Type 0} where
  -- `Stop` up to its wait; closing a channel twice panics (`none`).
  unfoldable pub stop_begins : RedisHub Client C → Option (RedisHub Client C)
  stop_begins h =
      if h.own.stop_sub_chan || h.own.stop_pub_chan
      then none
      else some (record h {
        own = record h.own {
          stop_sub_chan = true;
          stop_pub_chan = true;
          publishers = signal_all h.own.publishers;
        };
      })

  -- The wait of `Stop` ends when the publishers have returned.
  unfoldable pub wait_ends : RedisHub Client C → Option (RedisHub Client C)
  wait_ends h =
      if h.own.stop_pub_chan && (not h.own.waited && all_exited h.own.publishers)
      then some (record h { own = record h.own { waited = true } })
      else none

  -- `Stop` after its wait: it closes the client, a panic (`none`) if there is none yet, and
  -- `Done`. Other calls and events may come between the wait and this; none of them reads what
  -- this changes, so its two statements are one step.
  unfoldable pub stop_ends : RedisHub Client C → Option (RedisHub Client C)
  stop_ends h =
      if h.own.waited && not h.own.stopchan
      then (elim h.own.client [
        | none ↦ none
        | some c ↦
            some (record h {
              own = record h.own { closed = h.own.closed ++ (c ∷ []); stopchan = true };
            })
      ])
      else none

  -- One event of publisher number `i`.
  unfoldable pub publisher_event : ℕ → Event C → RedisHub Client C → Option (RedisHub Client C)
  publisher_event i e h = worker_at i e h.own.publishers >>= λ ws.
      some (record h { own = record h.own { publishers = ws } })
