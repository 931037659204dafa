-- ===== src/Sqs/Publisher/Examples.antt =====
-- Runs of the goroutine, and the theorems about it at those runs. The service accepts every single
-- send and every batch but those of three entries, of which it fails one.
use Prim.Native.String.{String}
use vice.Base.{
  ℕ, ◌≡◌, refl, true, false, List, [], ◌∷◌, ◌++◌, none, some, Bytes, codes, length, ◌==◌,
  if◌then◌else◌,
}
use vice.Transport.{Err}
use vice.Sqs.Service.{Entry, Call, send_message_batch, Service, failed, messages, Cause, text}
use vice.Sqs.Publisher.{
  Publisher, Event, client_send, stop, case_stop, case_message, new_publisher, step, run,
}
use vice.Sqs.Publisher.Bounds.{IsBounded, run-IsBounded}
use vice.Sqs.Publisher.Order.{sent, accepted, run-carried}
use vice.Sqs.Publisher.Report.{failures, run-IsReported}

abbrev picky : Service ℕ
picky = record {
  on_send = λ before url body. none;
  on_batch = λ before url entries.
      if length entries == 3 then failed (codes "too long" ∷ []) else failed [];
  on_receive = λ before url. messages [];
  on_delete = λ before url handle. none;
}

abbrev queue : Bytes
queue = codes "q"

abbrev entry : String → ℕ → Entry
entry s n = record { body = codes s; id = n }

-- Four messages in batches of three; the last one waits when the goroutine stops.
abbrev four : List Event
four =
    client_send (codes "a")
    ∷ client_send (codes "b")
    ∷ client_send (codes "c")
    ∷ case_message 1
    ∷ case_message 2
    ∷ case_message 3
    ∷ client_send (codes "d")
    ∷ case_message 4
    ∷ stop
    ∷ []

abbrev batches : List Call
batches = send_message_batch queue (entry "a" 1 ∷ entry "b" 2 ∷ entry "c" 3 ∷ []) ∷ []

abbrev too_long : Err (Cause ℕ)
too_long = record { message = []; name = queue; err = text (codes "too long") }

-- The goroutine after these events.
abbrev stopping : Publisher ℕ
stopping = record {
  pending = [];
  stopping = true;
  accum = entry "d" 4 ∷ [];
  calls = batches;
  errs = too_long ∷ [];
  exited = false;
}

abbrev exited : Publisher ℕ
exited = record stopping {
  accum = [];
  calls = batches ++ (send_message_batch queue (entry "d" 4 ∷ []) ∷ []);
  exited = true;
}

four_runs : run picky queue 3 new_publisher four ≡ some stopping
unfolding run new_publisher
four_runs = refl

run-carried_example : sent batches ++ (codes "d" ∷ []) ≡ accepted four
run-carried_example = run-carried picky queue 3 stopping four four_runs

run-IsBounded_example : IsBounded queue 3 stopping
run-IsBounded_example = run-IsBounded picky queue 3 stopping four four_runs

run-IsReported_example : stopping.errs ≡ failures picky [] batches
run-IsReported_example = run-IsReported picky queue 3 stopping four four_runs

-- With nothing held back the goroutine sends an empty batch.
abbrev idle : Publisher ℕ
idle = record stopping { accum = [] }

idle_exits :
    step picky queue 3 idle case_stop
    ≡ some (record idle { calls = batches ++ (send_message_batch queue [] ∷ []); exited = true })
unfolding step
idle_exits = refl
