-- ===== src/Nats/Examples.antt =====
-- The theorems about queues/nats at concrete libraries and states.
use vice.Base.{
  ℕ, ◌+◌, ◌≡◌, ◌<◌, refl, true, false, List, [], ◌∷◌, none, some, codes, arith, ltb, if◌then◌else◌,
}
use vice.Hub.{gives, refuses, made, obtain}
use vice.Hub.Runs.{Action, sends, receives, moves, stop_start, wait_end, stop_end, acts}
use vice.Hub.Waiting.{Waited}
use vice.Hub.Logs.{Logged, heard, nothing}
use vice.Relay.{Relay, Event, client_send, case_message, case_stop, new_relay}
use vice.Relay.Fleet.{signal_all, all_exited, start_worker, worker_at, IsComplete}
use vice.Nats.{
  Library, NatsHub, Subscription, new, with_connection, with_streaming, make_publisher,
  make_subscriber, send, receive, stop_begins, wait_ends, stop_ends, publisher_event,
}
use vice.Nats.Runs.{nats_transport, nats_acts-IsComplete}

-- The first two connections fail, the third is connection 2; streaming works at once.
abbrev slow : Library ℕ ℕ ℕ
slow = record {
  connect = λ n. if ltb n 2 then refuses 111 else gives n;
  stan_connect = λ n cluster client conn. gives (n + 7);
  subscribe = λ n sub. none;
}

abbrev fresh : NatsHub ℕ ℕ ℕ
fresh = record {
  send_chans = [];
  receive_chans = [];
  err_chan = [];
  chans = 0;
  own = record {
    nats_conn = none;
    nats_streaming_conn = none;
    nats_streaming = false;
    streaming_cluster_id = [];
    streaming_client_id = [];
    subscriptions = [];
    publishers = [];
    dials = 0;
    stan_dials = 0;
    subscribes = 0;
    unsubscribed = [];
    stan_closed = [];
    closed = [];
    stop_pub_chan = false;
    waited = false;
    stopchan = false;
  };
}

fresh_new : new [] ≡ fresh
unfolding new
fresh_new = refl

streaming_new :
    new {Conn = ℕ} {Stan = ℕ} {C = ℕ} (with_streaming (codes "c") (codes "me") ∷ [])
    ≡ record fresh {
      own = record fresh.own {
        nats_streaming = true;
        streaming_cluster_id = codes "c";
        streaming_client_id = codes "me";
      };
    }
unfolding new with_streaming
streaming_new = refl

two_fail : (i : ℕ) → i < 2 → (e : ℕ) × (slow.connect (0 + i) ≡ refuses e)
two_fail i low = (111, ground arith)

-- The state after the third call, which made a publisher for q.
abbrev idle : Relay ℕ
idle = record { pending = []; stopping = false; attempts = []; errs = []; exited = false }

abbrev running : NatsHub ℕ ℕ ℕ
running = record fresh {
  chans = 1;
  own = record fresh.own {
    nats_conn = some 2;
    dials = 3;
    publishers = record { name = codes "q"; chan = 0; state = idle } ∷ [];
  };
}

abbrev before : NatsHub ℕ ℕ ℕ
before = record fresh { own = record fresh.own { dials = 2 } }

third_works : make_publisher slow (codes "q") before ≡ made running 0
unfolding make_publisher start_worker new_relay
third_works = refl

abbrev subscription : Subscription
subscription = record { subject = codes "in"; group = codes "vice-in"; durable = none; chan = 0 }

abbrev subscribed : NatsHub ℕ ℕ ℕ
subscribed = record fresh {
  chans = 1;
  own = record fresh.own { nats_conn = some 2; subscriptions = subscription ∷ [] };
}

abbrev stopping : NatsHub ℕ ℕ ℕ
stopping = record subscribed {
  own = record subscribed.own { unsubscribed = subscription ∷ []; stop_pub_chan = true };
}

stop_starts : stop_begins subscribed ≡ some stopping
unfolding stop_begins signal_all
stop_starts = refl

-- A transport that is given a connection, from `New` to the end of `Stop`.
abbrev path : List (Action (ℕ × Event ℕ))
path =
    receives (codes "in")
    ∷ sends (codes "q")
    ∷ moves (0, client_send (codes "a"))
    ∷ stop_start
    ∷ moves (0, case_message none)
    ∷ moves (0, case_stop true)
    ∷ wait_end
    ∷ moves (0, client_send (codes "b"))
    ∷ stop_end
    ∷ []

abbrev sent_relay : Relay ℕ
sent_relay = record {
  pending = codes "b" ∷ [];
  stopping = true;
  attempts = record { message = codes "a"; result = none } ∷ [];
  errs = [];
  exited = true;
}

abbrev after_done : NatsHub ℕ ℕ ℕ
after_done = record {
  send_chans = (codes "q", 1) ∷ [];
  receive_chans = (codes "in", 0) ∷ [];
  err_chan = [];
  chans = 2;
  own = record fresh.own {
    nats_conn = none;
    closed = some 9 ∷ [];
    subscriptions = subscription ∷ [];
    publishers = record { name = codes "q"; chan = 1; state = sent_relay } ∷ [];
    subscribes = 1;
    unsubscribed = subscription ∷ [];
    stop_pub_chan = true;
    waited = true;
    stopchan = true;
  };
}

path_runs : acts (nats_transport slow) path (new (with_connection 9 ∷ [])) ≡ some after_done
unfolding acts new with_connection send receive obtain make_publisher make_subscriber stop_begins
    publisher_event worker_at start_worker new_relay vice.Relay.step signal_all wait_ends stop_ends
    all_exited
path_runs = refl

nats_acts-IsComplete_example :
    (w : Waited (nats_transport slow) path (new (with_connection 9 ∷ [])) after_done) × Logged
      IsComplete w.waiting.own.publishers
      (heard w.before nothing)
nats_acts-IsComplete_example =
    nats_acts-IsComplete slow (with_connection 9 ∷ []) path after_done path_runs refl
