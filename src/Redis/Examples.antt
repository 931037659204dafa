-- ===== src/Redis/Examples.antt =====
-- The theorems about queues/redis at concrete transports, answers and lists.
use vice.Base.{
  ℕ, ◌≡◌, refl, ap, sym, ◌∙◌, Bool, true, false, List, [], ◌∷◌, ◌++◌, Option, none, some, Bytes,
  codes,
}
use mathlib.Core.List.{reverse, reverse-reverse, reverse-append}
use vice.Hub.{made, not_made, obtain}
use vice.Hub.Runs.{Action, sends, moves, stop_start, wait_end, stop_end, acts}
use vice.Hub.Waiting.{Waited}
use vice.Hub.Logs.{Logged, heard, nothing}
use vice.Relay.{Attempt, Relay, Event, client_send, case_message, case_stop, new_relay}
use vice.Relay.Fleet.{all_exited, IsComplete, start_worker, signal_all, worker_at}
use vice.Redis.{
  RedisHub, new, with_client, new_connection, make_publisher, send, stop_begins, publisher_event,
  wait_ends, stop_ends,
}
use vice.Redis.Connection.{make_publisher_after_failure}
use vice.Redis.Subscriber.{Popped, pop_failed, popped, Subscriber, rounds}
use vice.Redis.Subscriber.Delivery.{values}
use vice.Redis.Subscriber.Reversal.{RedisServer, push_attempts, pop_answers, delivered_reversed}
use vice.Redis.Runs.{redis_transport, redis_acts-IsComplete}

-- A server that is down: each `Ping` fails with 111.
abbrev down : ℕ → ℕ × Option ℕ
down n = (n, some 111)

abbrev fresh : RedisHub ℕ ℕ
fresh = record {
  send_chans = [];
  receive_chans = [];
  err_chan = [];
  chans = 0;
  own = record {
    client = none;
    dials = 0;
    closed = [];
    publishers = [];
    subscribers = [];
    stop_sub_chan = false;
    stop_pub_chan = false;
    waited = false;
    stopchan = false;
  };
}

fresh_new : new [] ≡ fresh
unfolding new
fresh_new = refl

client_new : (new {Client = ℕ} {C = ℕ} (with_client 5 ∷ [])).own.client ≡ some 5
unfolding new with_client
client_new = refl

abbrev dialled : RedisHub ℕ ℕ
dialled = record fresh { own = record fresh.own { client = some 0; dials = 1 } }

first_fails : new_connection down fresh ≡ (dialled, 0, some 111)
unfolding new_connection
first_fails = refl

publisher_fails : make_publisher down (codes "q") fresh ≡ not_made dialled 111
unfolding make_publisher
publisher_fails = refl

make_publisher_after_failure_example :
    (t : RedisHub ℕ ℕ) × (make_publisher down (codes "q") dialled ≡ made t 0)
    × (t.own.client ≡ some 0)
    × (t.own.dials ≡ 1)
make_publisher_after_failure_example =
    make_publisher_after_failure down (codes "q") (codes "q") fresh dialled 111 publisher_fails

abbrev start : Subscriber ℕ
start = record { errs = []; delivered = []; exited = false }

abbrev answers : List (Bool × Popped ℕ)
answers =
    (false, popped (codes "q" ∷ codes "a" ∷ []))
    ∷ (false, pop_failed 3)
    ∷ (true, popped (codes "q" ∷ codes "b" ∷ []))
    ∷ (true, pop_failed 4)
    ∷ (true, popped (codes "q" ∷ codes "c" ∷ []))
    ∷ []

answers-values : values answers ≡ codes "a" ∷ codes "b" ∷ []
answers-values = refl

-- One list, stored with its tail first.
pop_head : List Bytes → Option (Bytes × List Bytes)
pop_head [] = none
pop_head (v ∷ vs) = some (v, vs)

pop_head-reverse :
    (name v : Bytes) (vs s : List Bytes)
    → reverse s ≡ vs ++ (v ∷ [])
    → (t : List Bytes) × (pop_head s ≡ some (v, t)) × (reverse t ≡ vs)
unfolding pop_head
pop_head-reverse name v vs s held =
    let stored = sym (reverse-reverse s) ∙ ap reverse held ∙ reverse-append vs (v ∷ []) in
    (reverse vs, ap pop_head stored, reverse-reverse vs)

abbrev one_list : RedisServer
one_list = record {
  Store = List Bytes;
  items = λ s name. reverse s;
  rpush = λ name v s. v ∷ s;
  brpop = λ name s. pop_head s;
  items-rpush = λ name v s. reverse-append (v ∷ []) s;
  brpop-items = pop_head-reverse;
}

abbrev two : List (Attempt ℕ)
two =
    record { message = codes "first"; result = none }
    ∷ record { message = codes "second"; result = none }
    ∷ []

delivered_reversed_example :
    (popped_answers : List (Bool × Popped ℕ)) × (u : List Bytes) × (t : Subscriber ℕ) × (pop_answers
        one_list ℕ
        (codes "q")
        2
        (push_attempts one_list ℕ (codes "q") two [])
      ≡ some (popped_answers, u))
    × (rounds (codes "q") popped_answers start ≡ some t)
    × (t.delivered ≡ start.delivered ++ reverse (codes "first" ∷ codes "second" ∷ []))
delivered_reversed_example = delivered_reversed one_list ℕ (codes "q") two [] start refl refl

-- A transport that is given a client, from `New` to the end of `Stop`.
abbrev path : List (Action (ℕ × Event ℕ))
path =
    sends (codes "q")
    ∷ moves (0, client_send (codes "a"))
    ∷ stop_start
    ∷ moves (0, case_message none)
    ∷ moves (0, case_stop true)
    ∷ wait_end
    ∷ moves (0, client_send (codes "b"))
    ∷ stop_end
    ∷ []

abbrev sent_relay : Relay ℕ
sent_relay = record {
  pending = codes "b" ∷ [];
  stopping = true;
  attempts = record { message = codes "a"; result = none } ∷ [];
  errs = [];
  exited = true;
}

abbrev after_done : RedisHub ℕ ℕ
after_done = record {
  send_chans = (codes "q", 0) ∷ [];
  receive_chans = [];
  err_chan = [];
  chans = 1;
  own = record {
    client = some 5;
    dials = 0;
    closed = 5 ∷ [];
    publishers = record { name = codes "q"; chan = 0; state = sent_relay } ∷ [];
    subscribers = [];
    stop_sub_chan = true;
    stop_pub_chan = true;
    waited = true;
    stopchan = true;
  };
}

path_runs : acts (redis_transport down) path (new (with_client 5 ∷ [])) ≡ some after_done
unfolding acts new with_client send obtain make_publisher stop_begins publisher_event worker_at
    start_worker new_relay vice.Relay.step signal_all wait_ends stop_ends all_exited
path_runs = refl

redis_acts-IsComplete_example :
    (w : Waited (redis_transport down) path (new (with_client 5 ∷ [])) after_done) × Logged
      IsComplete w.waiting.own.publishers
      (heard w.before nothing)
redis_acts-IsComplete_example =
    redis_acts-IsComplete down (with_client 5 ∷ []) path after_done path_runs refl
