-- ===== src/Nats.antt =====
-- queues/nats: the transport over NATS and NATS streaming. The client libraries are a parameter:
-- connections are of any type, and what call number `n` of a library returns is a function of `n`.
-- A connection comes without an error, and nil with one. The errors of `Unsubscribe` and `Flush`
-- are ignored by the code.
pub mod Connection
pub mod Stopping
pub mod Runs
mod Examples
use vice.Base.{
  ℕ, ◌+◌, Bool, true, false, not, ◌&&◌, List, [], ◌∷◌, ◌++◌, Option, none, some, Bytes, codes,
  if◌then◌else◌, ◌>>=◌,
}
use vice.Hub.{
  Answer, gives, refuses, Hub, Made, made, not_made, obtain, new_chan, sending, receiving,
}
use vice.Relay.{Event}
use vice.Relay.Fleet.{Worker, start_worker, signal_all, all_exited, worker_at}

-- options.go
pub record Options (Conn : Type 0) : Type 0 where
  pub conn : Option Conn
  pub streaming_cluster_id : Bytes
  pub streaming_client_id : Bytes
  pub use_streaming : Bool

unfoldable pub with_connection : {Conn : Type 0} → Conn → Options Conn → Options Conn
with_connection c o = record o { conn = some c }

unfoldable pub with_streaming : {Conn : Type 0} → Bytes → Bytes → Options Conn → Options Conn
with_streaming cluster client o = record o {
  use_streaming = true;
  streaming_client_id = client;
  streaming_cluster_id = cluster;
}

unfoldable pub apply_options :
    {Conn : Type 0} → List (Options Conn → Options Conn) → Options Conn → Options Conn
apply_options [] o = o
apply_options (f ∷ fs) o = apply_options fs (f o)

-- A subscription: its subject, its queue group (and durable name, with streaming), and the channel
-- that its callback sends the data of each message to.
pub record Subscription : Type 0 where
  pub subject : Bytes
  pub group : Bytes
  pub durable : Option Bytes
  pub chan : ℕ

pub record Own (Conn Stan C : Type 0) : Type 0 where
  pub nats_conn : Option Conn
  pub nats_streaming_conn : Option Stan
  pub nats_streaming : Bool
  pub streaming_cluster_id : Bytes
  pub streaming_client_id : Bytes
  pub subscriptions : List Subscription
  pub publishers : List (Worker C)
  pub dials : ℕ  -- calls of nats.Connect so far
  pub stan_dials : ℕ  -- calls of stan.Connect so far
  pub subscribes : ℕ  -- calls of QueueSubscribe so far
  pub unsubscribed : List Subscription
  pub stan_closed : List Stan
  pub closed : List (Option Conn)  -- flushed and closed, none for nil
  pub stop_pub_chan : Bool  -- closed
  pub waited : Bool  -- `Stop` is past its wait
  pub stopchan : Bool

abbrev pub NatsHub : Type 0 → Type 0 → Type 0 → Type 0
NatsHub Conn Stan C = Hub (Own Conn Stan C) C

unfoldable pub new :
    {Conn Stan C : Type 0} → List (Options Conn → Options Conn) → NatsHub Conn Stan C
unfolding apply_options
new opts =
    let options = apply_options opts (record {
      conn = none;
      streaming_cluster_id = [];
      streaming_client_id = [];
      use_streaming = false;
    }) in
    record {
      send_chans = [];
      receive_chans = [];
      err_chan = [];
      chans = 0;
      own = record {
        nats_conn = options.conn;
        nats_streaming_conn = none;
        nats_streaming = options.use_streaming;
        streaming_cluster_id = options.streaming_cluster_id;
        streaming_client_id = options.streaming_client_id;
        subscriptions = [];
        publishers = [];
        dials = 0;
        stan_dials = 0;
        subscribes = 0;
        unsubscribed = [];
        stan_closed = [];
        closed = [];
        stop_pub_chan = false;
        waited = false;
        stopchan = false;
      };
    }

-- What the libraries return: `nats.Connect`, `stan.Connect` (with its identifiers and connection)
-- and `QueueSubscribe` on either.
pub record Library (Conn Stan C : Type 0) : Type 0 where
  pub connect : ℕ → Answer Conn C
  pub stan_connect : ℕ → Bytes → Bytes → Option Conn → Answer Stan C
  pub subscribe : ℕ → Subscription → Option C

abbrev pub group_name : Bytes → Bytes
group_name name = codes "vice-" ++ name

module _ {Conn Stan C : Type 0} (lib : Library Conn Stan C) where
  unfoldable pub new_connection : NatsHub Conn Stan C → NatsHub Conn Stan C × Answer Conn C
  new_connection h = elim h.own.nats_conn [
    | some c ↦ (h, gives c)
    | none ↦
        let t = record h { own = record h.own { dials = h.own.dials + 1 } } in
        elim (lib.connect h.own.dials) [
          | gives c ↦ (record t { own = record t.own { nats_conn = some c } }, gives c)
          | refuses e ↦ (t, refuses e)
        ]
  ]

  unfoldable pub new_streaming_connection :
      NatsHub Conn Stan C → NatsHub Conn Stan C × Answer Stan C
  new_streaming_connection h = elim h.own.nats_streaming_conn [
    | some c ↦ (h, gives c)
    | none ↦
        let t = record h { own = record h.own { stan_dials = h.own.stan_dials + 1 } } in
        let o = h.own in
        elim (lib.stan_connect o.stan_dials o.streaming_cluster_id o.streaming_client_id
          o.nats_conn) [
            | gives c ↦ (record t { own = record t.own { nats_streaming_conn = some c } }, gives c)
            | refuses e ↦ (t, refuses e)
          ]
  ]

  -- The call of `QueueSubscribe`, and the subscription that is kept if it succeeds.
  pub subscribe_with : Subscription → NatsHub Conn Stan C → Made (Own Conn Stan C) C
  subscribe_with sub h =
      let t = record h { own = record h.own { subscribes = h.own.subscribes + 1 } } in
      elim (lib.subscribe h.own.subscribes sub) [
        | some e ↦ not_made t e
        | none ↦
            made
              (record t {
                own = record t.own { subscriptions = t.own.subscriptions ++ (sub ∷ []) };
              })
              sub.chan
      ]

  unfoldable pub make_subscriber : Bytes → NatsHub Conn Stan C → Made (Own Conn Stan C) C
  unfolding new_connection new_streaming_connection new_chan subscribe_with
  make_subscriber name h =
      let (h₁, c) = new_connection h in
      elim c [
        | refuses e ↦ not_made h₁ e
        | gives conn ↦
            let (h₂, ch) = new_chan h₁ in
            let group = group_name name in
            if h₂.own.nats_streaming
            then (let (h₃, s) = new_streaming_connection h₂ in
                elim s [
                  | refuses e ↦ not_made h₃ e
                  | gives stan ↦
                      subscribe_with
                        (record { subject = name; group = group; durable = some group; chan = ch })
                        h₃
                ])
            else subscribe_with
                (record { subject = name; group = group; durable = none; chan = ch }) h₂
      ]

  -- Makes the channel and starts the goroutine.
  pub add_publisher : Bytes → NatsHub Conn Stan C → Made (Own Conn Stan C) C
  unfolding new_chan
  add_publisher name h =
      let (h', ch) = new_chan h in
      let worker = start_worker name ch h'.own.stop_pub_chan in
      made (record h' { own = record h'.own { publishers = h'.own.publishers ++ (worker ∷ []) } })
        ch

  unfoldable pub make_publisher : Bytes → NatsHub Conn Stan C → Made (Own Conn Stan C) C
  unfolding new_connection new_streaming_connection add_publisher
  make_publisher name h =
      let (h₁, c) = new_connection h in
      elim c [
        | refuses e ↦ not_made h₁ e
        | gives conn ↦
            if h₁.own.nats_streaming
            then (let (h₂, s) = new_streaming_connection h₁ in
                elim s [ refuses e ↦ not_made h₂ e | gives stan ↦ add_publisher name h₂ ])
            else add_publisher name h₁
      ]

-- `Stop` holds the mutex for as long as it runs.
abbrev pub locked : {Conn Stan C : Type 0} → NatsHub Conn Stan C → Bool
locked h = h.own.stop_pub_chan && not h.own.stopchan

module _ {Conn Stan C : Type 0} (lib : Library Conn Stan C) where
  unfoldable pub receive : Bytes → NatsHub Conn Stan C → Option (NatsHub Conn Stan C × ℕ)
  receive name h = if locked h then none else obtain receiving (make_subscriber lib) name h

  unfoldable pub send : Bytes → NatsHub Conn Stan C → Option (NatsHub Conn Stan C × ℕ)
  send name h = if locked h then none else obtain sending (make_publisher lib) name h

pub close_streaming : {Stan : Type 0} → Option Stan → List Stan → List Stan
close_streaming none closed = closed
close_streaming (some c) closed = closed ++ (c ∷ [])

module _ {Conn Stan C : Type 0} where
  -- `Stop` up to its wait: it ends all subscriptions, and closes stopPubChan; closing that twice
  -- panics (`none`).
  unfoldable pub stop_begins : NatsHub Conn Stan C → Option (NatsHub Conn Stan C)
  stop_begins h =
      if h.own.stop_pub_chan
      then none
      else some (record h {
        own = record h.own {
          unsubscribed = h.own.unsubscribed ++ h.own.subscriptions;
          stop_pub_chan = true;
          publishers = signal_all h.own.publishers;
        };
      })

  -- The wait of `Stop` ends when the publishers have returned.
  unfoldable pub wait_ends : NatsHub Conn Stan C → Option (NatsHub Conn Stan C)
  wait_ends h =
      if locked h && (not h.own.waited && all_exited h.own.publishers)
      then some (record h { own = record h.own { waited = true } })
      else none

  -- The rest of `Stop`, after its wait and still with the mutex.
  unfoldable pub stop_ends : NatsHub Conn Stan C → Option (NatsHub Conn Stan C)
  unfolding close_streaming
  stop_ends h =
      if locked h && h.own.waited
      then some (record h {
        own = record h.own {
          stan_closed = close_streaming h.own.nats_streaming_conn h.own.stan_closed;
          closed = h.own.closed ++ (h.own.nats_conn ∷ []);
          nats_conn = none;
          stopchan = true;
        };
      })
      else none

  -- One event of publisher number `i`.
  unfoldable pub publisher_event : ℕ → Event C → NatsHub Conn Stan C → Option (NatsHub Conn Stan C)
  publisher_event i e h = worker_at i e h.own.publishers >>= λ ws.
      some (record h { own = record h.own { publishers = ws } })
