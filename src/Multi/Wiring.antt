-- ===== src/Multi/Wiring.antt =====
-- queues/sqs/multi_writer.go: one send channel with its batcher and its writers.
pub mod Tracked
pub mod Delivered
use vice.Base.{
  ℕ, zero, suc, Bool, true, false, ◌&&◌, List, [], ◌∷◌, Option, none, some, Bytes, ◌>>=◌,
}
use vice.Multi.Batching
use vice.Multi.Batching.{Batcher, in_hand, returned}
use vice.Multi.Group

-- A send channel, with the goroutine that batches its messages and the writers behind it.
pub record Line (E : Type 0) : Type 0 where
  pub name : Bytes
  pub chan : ℕ
  pub batcher : Batcher
  pub group : Group.Group E

-- What happens to a line: its batcher moves, hands a batch to the dispatcher, or the writers and the
-- dispatcher move.
pub data LineEvent : Type 0 where
  batches : Batching.Event → LineEvent
  hands : LineEvent
  works : Group.Event → LineEvent

pub batcher_returned : Batching.Phase → Bool
batcher_returned returned = true
batcher_returned Batching.Phase.selecting = false
batcher_returned (Batching.Phase.handing w) = false
batcher_returned (Batching.Phase.leaving w) = false
batcher_returned Batching.Phase.sleeping = false

module _ {E : Type 0} where
  -- The batcher sees stopPubChan closed.
  unfoldable pub signal : Line E → Line E
  signal l = record l { batcher = record l.batcher { stopping = true } }

  -- The dispatcher and the writers see stopchan closed.
  unfoldable pub finish : Line E → Line E
  finish l = record l { group = record l.group { done = true } }

  -- wg.Wait() returns.
  unfoldable pub all_returned : List (Line E) → Bool
  unfolding batcher_returned
  all_returned [] = true
  all_returned (l ∷ ls) = batcher_returned l.batcher.phase && all_returned ls

  -- Only the transport stops the batcher and closes `done`; work comes only from the batcher.
  pub batch_event : ℕ → Batching.Event → Line E → Option (Line E)
  batch_event batch_size Batching.Event.stop l = none
  batch_event batch_size Batching.Event.queue_takes l = none
  batch_event batch_size e l =
      Batching.step l.name batch_size l.batcher e >>= λ b. some (record l { batcher = b })

  pub work_event : Group.Event → Line E → Option (Line E)
  work_event (Group.Event.receives m) l = none
  work_event Group.Event.done_closes l = none
  work_event e l = Group.step l.group e >>= λ g. some (record l { group = g })

  -- The send on `queue` and its receive.
  pub hand_event : ℕ → Line E → Option (Line E)
  hand_event batch_size l = in_hand l.batcher.phase >>= λ m.
      Batching.step l.name batch_size l.batcher Batching.Event.queue_takes >>= λ b.
      Group.step l.group (Group.Event.receives m) >>= λ g.
      some (record l { batcher = b; group = g })

  unfoldable pub line_step : ℕ → LineEvent → Line E → Option (Line E)
  unfolding batch_event work_event hand_event
  line_step batch_size (batches e) l = batch_event batch_size e l
  line_step batch_size hands l = hand_event batch_size l
  line_step batch_size (works e) l = work_event e l

  unfoldable pub line_at : ℕ → ℕ → LineEvent → List (Line E) → Option (List (Line E))
  unfolding line_step
  line_at batch_size i e [] = none
  line_at batch_size zero e (l ∷ ls) = line_step batch_size e l >>= λ l'. some (l' ∷ ls)
  line_at batch_size (suc i) e (l ∷ ls) = line_at batch_size i e ls >>= λ ls'. some (l ∷ ls')
