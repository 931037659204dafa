-- ===== src/Multi/Batching.antt =====
-- queues/sqs/multi_writer.go, `makePublishers`: the goroutine that collects the messages of a send
-- channel into batches and hands each batch to the writers through the channel `queue`. That
-- channel has no buffer, so the goroutine waits until the dispatcher takes what it hands over.
pub mod Steps
pub mod Order
pub mod Bounds
pub mod Quiet
pub mod Moves
pub mod Mirrors
pub mod Equivalence
use vice.Base.{
  ℕ, Bool, true, false, ◌||◌, List, [], ◌∷◌, ◌++◌, Option, none, some, Bytes, length, ltb, ◌==◌,
  if◌then◌else◌, ◌>>=◌,
}
use vice.Sqs.Service.{Entry}

-- writerMsg
pub record WriterMsg : Type 0 where
  pub batch : List Entry
  pub name : Bytes

-- What the goroutine is doing: it waits in its `select`, hands a batch over, hands over the last
-- batch in its deferred function, sleeps after that, or has returned.
pub data Phase : Type 0 where
  selecting : Phase
  handing : WriterMsg → Phase
  leaving : WriterMsg → Phase
  sleeping : Phase
  returned : Phase

pub record Batcher : Type 0 where
  pub pending : List Bytes  -- the buffer of the channel
  pub stopping : Bool  -- stopPubChan is closed
  pub accum : List Entry
  pub phase : Phase
  pub handed : List WriterMsg  -- taken by the dispatcher so far

-- make(chan []byte, 1024)
abbrev pub chan_size : ℕ
chan_size = 1024

unfoldable pub new_batcher : Bool → Batcher
new_batcher stopping = record {
  pending = [];
  stopping = stopping;
  accum = [];
  phase = selecting;
  handed = [];
}

-- What happens next: a client sends, the transport stops, the `select` takes one of its cases (a
-- message with the clock), the dispatcher takes what is handed over, or the sleep ends.
pub data Event : Type 0 where
  client_send : Bytes → Event
  stop : Event
  case_stop : Event
  case_message : (now : ℕ) → Event
  case_timeout : Event
  queue_takes : Event
  wakes : Event

-- Only a goroutine in its `select` takes a case.
abbrev pub selects : Phase → Option Batcher → Option Batcher
selects selecting next = next
selects (handing w) next = none
selects (leaving w) next = none
selects sleeping next = none
selects returned next = none

-- The send on `queue` is done: the batch is reset, or the goroutine sleeps.
pub taken : Phase → Batcher → Option Batcher
taken selecting s = none
taken (handing w) s =
    some (record s { accum = []; phase = selecting; handed = s.handed ++ (w ∷ []) })
taken (leaving w) s = some (record s { phase = sleeping; handed = s.handed ++ (w ∷ []) })
taken sleeping s = none
taken returned s = none

pub woken : Phase → Batcher → Option Batcher
woken sleeping s = some (record s { phase = returned })
woken selecting s = none
woken (handing w) s = none
woken (leaving w) s = none
woken returned s = none

module _ (name : Bytes) where
  -- Copies the batch and starts to hand it over.
  pub hand_over : Batcher → Batcher
  hand_over s = record s { phase = handing (record { batch = s.accum; name = name }) }

  -- The deferred function.
  pub leave : Batcher → Batcher
  leave s =
      if length s.accum == 0
      then record s { phase = returned }
      else record s { phase = leaving (record { batch = s.accum; name = name }) }

  pub on_stop : Batcher → Batcher
  unfolding leave
  on_stop s = elim s.pending [ [] ↦ leave s | m ∷ rest ↦ s ]

module _ (name : Bytes) (batch_size : ℕ) where
  pub on_message : ℕ → Bytes → Batcher → Batcher
  unfolding hand_over
  on_message now msg s =
      let t = record s { accum = s.accum ++ (record { body = msg; id = now } ∷ []) } in
      if batch_size == 0
      then hand_over name t
      else if ltb (length t.accum) batch_size
      then t
      else hand_over name t

  pub on_timeout : Batcher → Batcher
  unfolding hand_over
  on_timeout s = if (batch_size == 0) || (length s.accum == 0) then s else hand_over name s

  -- `none`: the event cannot happen in this state.
  unfoldable pub step : Batcher → Event → Option Batcher
  unfolding on_stop on_message on_timeout taken woken
  step s (client_send m) =
      if ltb (length s.pending) chan_size
      then some (record s { pending = s.pending ++ (m ∷ []) })
      else none
  step s stop = if s.stopping then none else some (record s { stopping = true })
  step s case_stop = selects s.phase (if s.stopping then some (on_stop name s) else none)
  step s (case_message now) = selects s.phase (elim s.pending [
    | [] ↦ none
    | m ∷ rest ↦ some (on_message now m (record s { pending = rest }))
  ])
  step s case_timeout = selects s.phase (some (on_timeout s))
  step s queue_takes = taken s.phase s
  step s wakes = woken s.phase s

  unfoldable pub run : Batcher → List Event → Option Batcher
  unfolding step
  run s [] = some s
  run s (e ∷ es) = step s e >>= λ t. run t es

-- What is being handed over.
abbrev pub in_hand : Phase → Option WriterMsg
in_hand selecting = none
in_hand (handing w) = some w
in_hand (leaving w) = some w
in_hand sleeping = none
in_hand returned = none
