-- ===== src/Nsq/Examples.antt =====
-- The theorems about queues/nsq at concrete goroutines and handlers.
use vice.Base.{
  ℕ, arith, ◌≢◌, ◌<◌, true, ◌≡◌, refl, false, List, [], ◌∷◌, Option, none, some, codes, ltb,
  if◌then◌else◌,
}
use vice.Nsq.Producing.{Producer, client_send, case_stop}
use vice.Nsq.Consuming.{
  Consumer as Handler, new_consumer, Event, handle, chan_takes, run, IsFinishedFirst,
  run-IsFinishedFirst,
}
use vice.Nsq.Makers.{with_consumer, receive-connects}
use vice.Nsq.Stopping.{Action, sends, receives, produces, stop_start, wait_end, seen, stops}
use vice.Nsq.{Library, NsqHub, new, receive, stopped}

abbrev idle : Producer ℕ
idle = record {
  stopping = false;
  publications = [];
  reporting = none;
  errs = [];
  producer_stopped = false;
  exited = false;
}

abbrev always_fails : ℕ → Option ℕ
always_fails i = some i

-- Two failures before a success.
abbrev third_works : ℕ → Option ℕ
third_works i = if ltb i 2 then some 7 else none

abbrev events : List Event
events = handle (codes "x") ∷ chan_takes ∷ handle (codes "y") ∷ []

abbrev one_delivered : Handler
one_delivered = record {
  holding = some (codes "y");
  finished = codes "x" ∷ codes "y" ∷ [];
  delivered = codes "x" ∷ [];
}

events-run : run new_consumer events ≡ some one_delivered
unfolding run new_consumer
events-run = refl

run-IsFinishedFirst_example : IsFinishedFirst one_delivered (codes "x" ∷ codes "y" ∷ [])
run-IsFinishedFirst_example = run-IsFinishedFirst one_delivered events events-run

-- A library that makes every producer and consumer; a consumer is connected at the third call.
abbrev lib : Library ℕ
lib = record {
  new_producer = λ call. none;
  new_consumer = λ call name. none;
  connect = λ consumer call. third_works call;
}

two_fail : (i : ℕ) → i < 2 → third_works i ≢ none
two_fail i low e = absurd (ground arith)

receive-connects_example : receive lib 5 (codes "q") new ≡ some (with_consumer (codes "q") 3 new, 0)
unfolding new
receive-connects_example =
    receive-connects lib (codes "q") new 2 5 refl refl two_fail refl (omega arith)

-- A producer and a consumer, and `Stop` to its end.
abbrev path : List (Action ℕ)
path =
    sends (codes "p")
    ∷ receives (codes "q")
    ∷ produces 0 (client_send (codes "a") third_works)
    ∷ stop_start
    ∷ produces 0 case_stop
    ∷ wait_end
    ∷ stops 0
    ∷ seen
    ∷ []

abbrev done : NsqHub ℕ
done = record {
  send_chans = (codes "p", 0) ∷ [];
  receive_chans = (codes "q", 1) ∷ [];
  err_chan = [];
  chans = 2;
  own = record {
    consumers =
        record { name = codes "q"; chan = 1; number = 0; stop_called = true; stop_chan = true }
        ∷ [];
    producers =
        record {
          name = codes "p";
          chan = 0;
          state = record {
            stopping = true;
            reporting = none;
            publications =
                record {
                  body = codes "a";
                  outcome = record {
                    result = none;
                    calls = 3;
                    sleeps = 2000000000 ∷ 4000000000 ∷ [];
                  };
                }
                ∷ [];
            errs = [];
            producer_stopped = true;
            exited = true;
          };
        }
        ∷ [];
    new_consumers = 1;
    connects = 3;
    new_producers = 1;
    stop_prod_chan = true;
    stopchan = true;
    phase = stopped 1;
  };
}
