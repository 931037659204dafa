-- ===== src/Sqs/Publisher.antt =====
-- queues/sqs/sqs.go, `makePublisher`: the goroutine behind a send channel. One iteration of its
-- loop is one event, so a list of events is one interleaving of it with the clients that send and
-- with `Stop`. An error counts as sent once the error channel has taken it.
pub mod Fields
pub mod Steps
pub mod Cases
pub mod Order
pub mod Bounds
pub mod Report
pub mod Stop
mod Examples
use vice.Base.{
  ℕ, ◌+◌, Bool, true, false, ◌&&◌, List, [], ◌∷◌, ◌++◌, map, Option, none, some, Bytes, length, ltb,
  ◌==◌, if◌then◌else◌, ◌>>=◌,
}
use vice.Transport.{Err}
use vice.Sqs.Service.{
  Entry, Call, send_message, send_message_batch, Service, refused, failed, Cause, service, text,
}

-- Errors come in the order in which they are sent, and calls in the order in which they are made.
pub record Publisher (E : Type 0) : Type 0 where
  pub pending : List Bytes  -- the buffer of the channel
  pub stopping : Bool  -- stopPubChan is closed
  pub accum : List Entry
  pub calls : List Call
  pub errs : List (Err (Cause E))
  pub exited : Bool  -- the goroutine has returned

-- make(chan []byte, 1024)
abbrev pub chan_size : ℕ
chan_size = 1024

unfoldable pub new_publisher : {E : Type 0} → Publisher E
new_publisher = record {
  pending = [];
  stopping = false;
  accum = [];
  calls = [];
  errs = [];
  exited = false;
}

-- What happens next: a client sends, the transport stops, or the goroutine's `select` takes one of
-- its three cases. Taking a message reads the clock.
pub data Event : Type 0 where
  client_send : Bytes → Event
  stop : Event
  case_stop : Event
  case_message : (now : ℕ) → Event
  case_timeout : Event

module _ {E : Type 0} (svc : Service E) (name : Bytes) where
  pub failed_err : Bytes → Err (Cause E)
  failed_err t = record { message = []; name = name; err = text t }

  -- Hands the entries to the service and reports what failed.
  unfoldable pub send_batch : List Entry → Publisher E → Publisher E
  unfolding failed_err
  send_batch entries s =
      let t = record s { calls = s.calls ++ (send_message_batch name entries ∷ []) } in
      elim (svc.on_batch s.calls name entries) [
        | refused e ↦ record t {
          errs = s.errs ++ (record { message = []; name = name; err = service e } ∷ []);
        }
        | failed texts ↦ record t { errs = s.errs ++ map failed_err texts }
      ]

  pub flush : Publisher E → Publisher E
  unfolding send_batch
  flush s = record (send_batch s.accum s) { accum = [] }

  pub send_one : Bytes → Publisher E → Publisher E
  send_one msg s =
      let t = record s { calls = s.calls ++ (send_message name msg ∷ []) } in
      elim (svc.on_send s.calls name msg) [
        | none ↦ t
        | some e ↦ record t {
          errs = s.errs ++ (record { message = msg; name = name; err = service e } ∷ []);
        }
      ]

module _ {E : Type 0} (svc : Service E) (name : Bytes) (batch_size : ℕ) where
  -- The deferred function.
  pub at_exit : Publisher E → Publisher E
  unfolding flush
  at_exit s = if (batch_size == 0) && (length s.accum == 0) then s else flush svc name s

  pub on_stop : Publisher E → Publisher E
  unfolding at_exit
  on_stop s = elim s.pending [ [] ↦ record (at_exit s) { exited = true } | m ∷ rest ↦ s ]

  pub on_message : ℕ → Bytes → Publisher E → Publisher E
  unfolding send_one flush
  on_message now msg s =
      if batch_size == 0
      then send_one svc name msg s
      else let t = record s { accum = s.accum ++ (record { body = msg; id = now } ∷ []) } in
        if ltb (length t.accum) batch_size then t else flush svc name t

  pub on_timeout : Publisher E → Publisher E
  unfolding flush
  on_timeout s = if length s.accum == 0 then s else flush svc name s

  abbrev pub live : Publisher E → Option (Publisher E) → Option (Publisher E)
  live s next = if s.exited then none else next

  -- `none`: the event cannot happen in this state.
  unfoldable pub step : Publisher E → Event → Option (Publisher E)
  unfolding on_stop on_message on_timeout
  step s (client_send m) =
      if ltb (length s.pending) chan_size
      then some (record s { pending = s.pending ++ (m ∷ []) })
      else none
  step s stop = if s.stopping then none else some (record s { stopping = true })
  step s case_stop = live s (if s.stopping then some (on_stop s) else none)
  step s (case_message now) = live s (elim s.pending [
    | [] ↦ none
    | m ∷ rest ↦ some (on_message now m (record s { pending = rest }))
  ])
  step s case_timeout = live s (some (on_timeout s))

  unfoldable pub run : Publisher E → List Event → Option (Publisher E)
  unfolding step
  run s [] = some s
  run s (e ∷ es) = step s e >>= λ t. run t es
