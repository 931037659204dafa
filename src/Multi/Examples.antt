-- ===== src/Multi/Examples.antt =====
-- The theorems about queues/sqs/multi_writer.go at concrete runs: two messages in a batch of two,
-- which one writer sends to a service that accepts everything.
use Prim.Native.String.{String}
use mathlib.Core.List.{Perm}
use vice.Base.{
  ℕ, zero, suc, ◌≡◌, refl, true, false, List, [], ◌∷◌, ◌++◌, map, none, some, Bytes, codes, All,
  concat_map,
}
use vice.Hub.{obtain}
use vice.Sqs.Service.{Entry, send_message_batch, Service, failed, messages}
use vice.Hub.Runs.{Action, sends, moves as moves_line, stop_start, wait_end, stop_end, acts}
use vice.Hub.Waiting.{Waited}
use vice.Hub.Logs.{Logged, heard, nothing}
use vice.Sqs.Publisher
use vice.Sqs.Publisher.{Publisher, new_publisher}
use vice.Sqs.Publisher.Order.{accepted as published}
use vice.Sqs.Transport.{NewService, no_service, new_service, default_interval}
use vice.Multi.Batching
use vice.Multi.Batching.{
  WriterMsg, Batcher, new_batcher, client_send, case_message, case_stop, queue_takes, stop, handing,
  returned, selecting,
}
use vice.Multi.Batching.Order.{bodies_of, accepted, batches-carried}
use vice.Multi.Batching.Bounds.{Fits, batches-Fit}
use vice.Multi.Batching.Mirrors.{payloads}
use vice.Multi.Batching.Equivalence.{same_batches}
use vice.Multi.Group
use vice.Multi.Group.{
  Group, new_group, Writer, receiving, checking, quit, receives, checks, chooses,
  gives as gives_work, enqueues, writes, done_closes, enqueuing,
}
use vice.Multi.Group.Writers.{all_bodies}
use vice.Multi.Group.Conserve.{run-IsConserved}
use vice.Multi.Group.Single.{one_writer-order}
use vice.Multi.Wiring.{Line, LineEvent, batches, hands, works, all_returned, line_at}
use vice.Multi.Wiring.Delivered.{IsDelivered}
use vice.Multi.Makers.{ServicesCase, make_services-cases}
use vice.Multi.Stopping.{multi_transport, multi_acts-IsDelivered}
use vice.Multi.{
  MultiHub, new_multi, make_services, make_publishers, send, line_event, stop_begins, wait_ends,
  stop_ends,
}

abbrev fine : Service ℕ
fine = record {
  on_send = λ before url body. none;
  on_batch = λ before url entries. failed [];
  on_receive = λ before url. messages [];
  on_delete = λ before url handle. none;
}

abbrev queue : Bytes
queue = codes "q"

abbrev entry : String → ℕ → Entry
entry s n = record { body = codes s; id = n }

abbrev pair : WriterMsg
pair = record { batch = entry "a" 1 ∷ entry "b" 2 ∷ []; name = queue }

-- The batcher takes two messages and hands them over; a third waits.
abbrev events : List Batching.Event
events =
    client_send (codes "a")
    ∷ case_message 1
    ∷ client_send (codes "b")
    ∷ case_message 2
    ∷ client_send (codes "c")
    ∷ queue_takes
    ∷ []

abbrev after_events : Batcher
after_events = record {
  pending = codes "c" ∷ [];
  stopping = false;
  accum = [];
  phase = selecting;
  handed = pair ∷ [];
}

events_run : Batching.run queue 2 (new_batcher false) events ≡ some after_events
unfolding Batching.run new_batcher
events_run = refl

batches-carried_example : codes "a" ∷ codes "b" ∷ codes "c" ∷ [] ≡ accepted events
batches-carried_example = batches-carried queue 2 false after_events events events_run

batches-Fit_example : All (Fits queue 2) (pair ∷ [])
batches-Fit_example = batches-Fit queue 2 false after_events events events_run

-- The same messages through the publisher of sqs.go.
abbrev single : List Publisher.Event
single =
    Publisher.Event.client_send (codes "a")
    ∷ Publisher.Event.case_message 1
    ∷ Publisher.Event.client_send (codes "b")
    ∷ Publisher.Event.case_message 2
    ∷ []

abbrev after_single : Publisher ℕ
after_single = record {
  pending = [];
  stopping = false;
  accum = [];
  calls = send_message_batch queue pair.batch ∷ [];
  errs = [];
  exited = false;
}

single_runs : Publisher.run fine queue 2 new_publisher single ≡ some after_single
unfolding Publisher.run new_publisher
single_runs = refl

same_batches_example :
    (b : Batcher) × (fs : List Batching.Event) × (Batching.run queue 2 (new_batcher false) fs
      ≡ some b)
    × (accepted fs ≡ published single)
    × (map bodies_of b.handed ≡ payloads after_single.calls)
    × (false ≡ true → b.phase ≡ returned)
same_batches_example = same_batches fine queue 2 after_single single single_runs

-- One writer sends the batch.
abbrev moves : List Group.Event
moves = receives pair ∷ checks ∷ enqueues 0 ∷ chooses ∷ gives_work ∷ writes 0 ∷ []

abbrev sent_pair : Writer ℕ
sent_pair = record {
  svc = fine;
  phase = enqueuing;
  calls = send_message_batch queue pair.batch ∷ [];
  errs = [];
}

abbrev after_moves : Group ℕ
after_moves = record {
  received = pair ∷ [];
  dispatch = receiving;
  worker_queue = [];
  writers = sent_pair ∷ [];
  done = false;
}

moves_run : Group.run (new_group (fine ∷ []) false) moves ≡ some after_moves
unfolding Group.run new_group
moves_run = refl

run-IsConserved_example :
    Perm (all_bodies (sent_pair ∷ []) ++ []) (concat_map bodies_of (pair ∷ []))
run-IsConserved_example = run-IsConserved (fine ∷ []) false after_moves moves moves_run

one_writer-order_example : all_bodies (sent_pair ∷ []) ++ [] ≡ codes "a" ∷ codes "b" ∷ []
one_writer-order_example = one_writer-order fine false after_moves moves moves_run

-- The second call fails.
abbrev second_fails : ℕ → Bytes → NewService ℕ
second_fails call region = elim call [ zero ↦ new_service fine | suc n ↦ no_service 7 ]

abbrev before : MultiHub ℕ
before = new_multi 2 2 0

make_services-cases_example :
    ServicesCase second_fails queue 2 before (make_services second_fails 2 queue before)
make_services-cases_example = make_services-cases second_fails 2 queue before

-- A transport with one writer, from its start to the end of `Stop`.
abbrev up : ℕ → Bytes → NewService ℕ
up call region = new_service fine

abbrev path : List (Action (ℕ × LineEvent))
path =
    sends queue
    ∷ moves_line (0, batches (client_send (codes "a")))
    ∷ moves_line (0, batches (case_message 1))
    ∷ moves_line (0, batches (client_send (codes "b")))
    ∷ moves_line (0, batches (case_message 2))
    ∷ stop_start
    ∷ moves_line (0, hands)
    ∷ moves_line (0, works checks)
    ∷ moves_line (0, works (enqueues 0))
    ∷ moves_line (0, works chooses)
    ∷ moves_line (0, works gives_work)
    ∷ moves_line (0, works (writes 0))
    ∷ moves_line (0, batches case_stop)
    ∷ wait_end
    ∷ moves_line (0, batches (client_send (codes "c")))
    ∷ stop_end
    ∷ []

abbrev line : Line ℕ
line = record {
  name = queue;
  chan = 0;
  batcher = record {
    pending = codes "c" ∷ [];
    stopping = true;
    accum = [];
    phase = returned;
    handed = pair ∷ [];
  };
  group = record after_moves { done = true };
}

abbrev stopped : MultiHub ℕ
stopped = record {
  send_chans = (queue, 0) ∷ [];
  receive_chans = [];
  err_chan = [];
  chans = 1;
  own = record {
    writers = 1;
    batch_size = 2;
    batch_interval = default_interval;
    lines = line ∷ [];
    subscribers = [];
    stop_sub_chan = true;
    stop_pub_chan = true;
    waited = true;
    stopchan = true;
    services = 1;
  };
}

path_runs : acts (multi_transport up) path (new_multi 1 2 0) ≡ some stopped
unfolding acts new_multi send obtain make_publishers make_services line_event line_at Batching.step
    new_batcher stop_begins Group.step new_group wait_ends stop_ends all_returned
path_runs = refl

multi_acts-IsDelivered_example :
    (w : Waited (multi_transport up) path (new_multi 1 2 0) stopped) × Logged IsDelivered
      w.waiting.own.lines
      (heard w.before nothing)
multi_acts-IsDelivered_example = multi_acts-IsDelivered up 1 2 0 path stopped path_runs refl
