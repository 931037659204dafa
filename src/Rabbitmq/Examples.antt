-- ===== src/Rabbitmq/Examples.antt =====
-- The theorems about queues/rabbitmq at concrete libraries and runs.
use vice.Base.{ℕ, ◌≡◌, refl, true, false, List, [], ◌∷◌, ◌++◌, Option, none, some, codes, replicate}
use vice.Hub.{gives, obtain, made}
use vice.Rabbitmq.Sending.{
  Publisher, Publishing, new_publisher, Event, client_send, stop, case_stop, run, IsPublished,
  run-IsPublished,
}
use vice.Rabbitmq.Consuming.{
  Delivery, selecting, sending, Subscriber, new_subscriber, case_msgs, chan_takes, acks,
  zero_delivery, IsAcked,
}
use vice.Rabbitmq.Consuming.Order.{run-IsAcked, closed_rounds, closed_msgs_flood}
use vice.Rabbitmq.{
  Library, Request, open_channel, queue_declare, RabbitHub, Worker, new, with_connection,
  make_subscriber, make_publisher, send, stop_begins, wait_ends, stop_ends, worker_at,
  publisher_event, all_exited,
}
use vice.Rabbitmq.Setup.{setup}
use vice.Rabbitmq.Fleet.{IsFinished}
use vice.Rabbitmq.Stopping.{rabbit_transport, acts-IsFinished}
use vice.Hub.Runs.{Action, sends, moves, stop_start, wait_end, stop_end, acts}
use vice.Hub.Waiting.{Waited}
use vice.Hub.Logs.{Logged, heard, nothing}

-- Everything works at once.
abbrev up : Library ℕ ℕ
up = record { dial = λ n. gives n; answer = λ log r. none; queue_name = λ log name. name }

abbrev fresh : RabbitHub ℕ ℕ
fresh = record {
  send_chans = [];
  receive_chans = [];
  err_chan = [];
  chans = 0;
  own = record {
    connection = some 5;
    dials = 0;
    requests = [];
    channels = 0;
    publishers = [];
    subscribers = [];
    closed = [];
    stop_sub_chan = false;
    stop_pub_chan = false;
    waited = false;
    stopchan = false;
  };
}

fresh_new : new (with_connection 5 ∷ []) ≡ fresh
unfolding new with_connection
fresh_new = refl

abbrev with_subscriber : RabbitHub ℕ ℕ
with_subscriber = record fresh {
  chans = 1;
  own = record fresh.own {
    requests = setup up 0 (codes "q") (codes "q");
    channels = 1;
    subscribers = record { name = codes "q"; chan = 0; rmqch = 0 } ∷ [];
  };
}

subscriber_made : make_subscriber up (codes "q") fresh ≡ made with_subscriber 0
unfolding make_subscriber
subscriber_made = refl

-- Only channels open.
abbrev refuse : Request → Option ℕ
refuse open_channel = none
refuse _ = some 404

abbrev locked_out : Library ℕ ℕ
locked_out = record {
  dial = λ n. gives n;
  answer = λ log r. refuse r;
  queue_name = λ log name. name;
}

abbrev two_sent : Publisher ℕ
two_sent = record {
  stopping = true;
  published =
      record { routing_key = codes "q"; body = codes "a"; result = none }
      ∷ record { routing_key = codes "q"; body = codes "b"; result = some 7 }
      ∷ [];
  errs = record { message = codes "b"; name = codes "q"; err = 7 } ∷ [];
  rmqch_closed = true;
  exited = true;
}

abbrev two_events : List (Event ℕ)
two_events = client_send (codes "a") none ∷ client_send (codes "b") (some 7) ∷ stop ∷ case_stop ∷ []

two-run : run (codes "q") (codes "q") (new_publisher false) two_events ≡ some two_sent
unfolding run new_publisher
two-run = refl

run-IsPublished_example : IsPublished (codes "q") (codes "q") two_sent (codes "a" ∷ codes "b" ∷ [])
run-IsPublished_example = run-IsPublished (codes "q") (codes "q") false two_sent two_events two-run

abbrev first : Delivery
first = record { body = codes "x"; tag = 1 }

abbrev second : Delivery
second = record { body = codes "y"; tag = 2 }

abbrev one_acked : Subscriber
one_acked = record {
  stopping = false;
  phase = sending second;
  delivered = first ∷ [];
  acked = first ∷ [];
}

abbrev one_event : List vice.Rabbitmq.Consuming.Event
one_event = case_msgs (some first) ∷ chan_takes ∷ acks ∷ case_msgs (some second) ∷ []

one_acked-run : vice.Rabbitmq.Consuming.run (new_subscriber false) one_event ≡ some one_acked
unfolding vice.Rabbitmq.Consuming.run new_subscriber
one_acked-run = refl

run-IsAcked_example : IsAcked one_acked (first ∷ second ∷ [])
run-IsAcked_example = run-IsAcked false one_acked one_event one_acked-run

abbrev listening : Subscriber
listening = record {
  stopping = false;
  phase = selecting;
  delivered = first ∷ [];
  acked = first ∷ [];
}

closed_msgs_flood_example :
    (t : Subscriber) × (vice.Rabbitmq.Consuming.run listening (closed_rounds 3) ≡ some t)
    × (t.phase ≡ selecting)
    × (t.delivered ≡ (first ∷ []) ++ replicate 3 zero_delivery)
closed_msgs_flood_example = closed_msgs_flood 3 listening refl

abbrev path : List (Action (ℕ × Event ℕ))
path =
    sends (codes "q")
    ∷ moves (0, client_send (codes "a") none)
    ∷ stop_start
    ∷ moves (0, case_stop)
    ∷ wait_end
    ∷ sends (codes "late")
    ∷ stop_end
    ∷ []

abbrev one_sent : Publisher ℕ
one_sent = record {
  stopping = true;
  published = record { routing_key = codes "q"; body = codes "a"; result = none } ∷ [];
  errs = [];
  rmqch_closed = true;
  exited = true;
}

abbrev after_done : RabbitHub ℕ ℕ
after_done = record {
  send_chans = (codes "q", 0) ∷ (codes "late", 1) ∷ [];
  receive_chans = [];
  err_chan = [];
  chans = 2;
  own = record {
    connection = some 0;
    dials = 1;
    requests =
        open_channel
        ∷ queue_declare 0 (codes "q") true false false false
        ∷ open_channel
        ∷ queue_declare 1 (codes "late") true false false false
        ∷ [];
    channels = 2;
    publishers =
        record { name = codes "q"; chan = 0; rmqch = 0; queue = codes "q"; state = one_sent }
        ∷ record {
          name = codes "late";
          chan = 1;
          rmqch = 1;
          queue = codes "late";
          state = record {
            stopping = true;
            published = [];
            errs = [];
            rmqch_closed = false;
            exited = false;
          };
        }
        ∷ [];
    subscribers = [];
    closed = 0 ∷ [];
    stop_sub_chan = true;
    stop_pub_chan = true;
    waited = true;
    stopchan = true;
  };
}

path_runs : acts (rabbit_transport up) path (new []) ≡ some after_done
unfolding acts new send obtain make_publisher stop_begins publisher_event worker_at new_publisher
    vice.Rabbitmq.Sending.step wait_ends stop_ends all_exited
path_runs = refl

acts-IsFinished_example :
    (w : Waited (rabbit_transport up) path (new []) after_done) × Logged IsFinished
      w.waiting.own.publishers
      (heard w.before nothing)
acts-IsFinished_example = acts-IsFinished up [] path after_done path_runs refl
