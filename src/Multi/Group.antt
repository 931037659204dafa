-- ===== src/Multi/Group.antt =====
-- queues/sqs/multi_writer.go, `newWriterGroup` and `svcWriter`: the dispatcher, and the writers
-- among which it shares out the batches. Writer number `i` stands in `worker_queue` by its number,
-- in place of its channel `work`. Neither that channel nor `queue` has a buffer, so a send and its
-- receive are one event.
pub mod Writers
pub mod Held
pub mod Conserve
pub mod Single
pub mod Quiet
pub mod Alive
use vice.Base.{
  ℕ, zero, suc, ◌+◌, Bool, true, false, List, [], ◌∷◌, ◌++◌, map, Option, none, some, Bytes, length,
  ltb, if◌then◌else◌, ◌>>=◌,
}
use vice.Transport.{Err}
use vice.Sqs.Service.{
  Entry, Call, send_message, send_message_batch, Service, refused, failed, Cause, service, text,
}
use vice.Multi.Batching.{WriterMsg}

-- What a writer is doing: it puts its channel into `worker_queue`, waits for work or `done`, has
-- work, or has returned.
pub data Phase : Type 0 where
  enqueuing : Phase
  offering : Phase
  working : WriterMsg → Phase
  returned : Phase

-- svcWriter, with the calls that it has made and the errors that it has sent.
pub record Writer (E : Type 0) : Type 0 where
  pub svc : Service E
  pub phase : Phase
  pub calls : List Call
  pub errs : List (Err (Cause E))

unfoldable pub new_writer : {E : Type 0} → Service E → Writer E
new_writer svc = record { svc = svc; phase = enqueuing; calls = []; errs = [] }

module _ {E : Type 0} (name : Bytes) where
  pub failed_err : Bytes → Err (Cause E)
  failed_err t = record { message = []; name = name; err = text t }

  -- svcWriter.sendMessage
  pub write_one : Entry → Writer E → Writer E
  write_one e s =
      let t = record s { calls = s.calls ++ (send_message name e.body ∷ []) } in
      elim (s.svc.on_send s.calls name e.body) [
        | none ↦ t
        | some c ↦ record t {
          errs = s.errs ++ (record { message = e.body; name = name; err = service c } ∷ []);
        }
      ]

  -- svcWriter.sendBatch
  pub write_batch : List Entry → Writer E → Writer E
  unfolding failed_err
  write_batch [] s = s
  write_batch (e ∷ es) s =
      let t = record s { calls = s.calls ++ (send_message_batch name (e ∷ es) ∷ []) } in
      elim (s.svc.on_batch s.calls name (e ∷ es)) [
        | refused c ↦ record t {
          errs = s.errs ++ (record { message = []; name = name; err = service c } ∷ []);
        }
        | failed texts ↦ record t { errs = s.errs ++ map failed_err texts }
      ]

  -- A batch of one goes out as a single message.
  pub write : List Entry → Writer E → Writer E
  unfolding write_one write_batch
  write [] s = write_batch [] s
  write (e ∷ []) s = write_one e s
  write (e ∷ f ∷ es) s = write_batch (e ∷ f ∷ es) s

-- What the dispatcher is doing: it receives work, looks at `done`, waits for a writer, waits for
-- that writer to take the work, or has returned with work that nobody gets.
pub data Dispatch : Type 0 where
  receiving : Dispatch
  checking : WriterMsg → Dispatch
  choosing : WriterMsg → Dispatch
  giving : WriterMsg → (writer : ℕ) → Dispatch
  quit : WriterMsg → Dispatch

pub record Group (E : Type 0) : Type 0 where
  pub received : List WriterMsg  -- taken from `queue` so far
  pub dispatch : Dispatch
  pub worker_queue : List ℕ
  pub writers : List (Writer E)
  pub done : Bool  -- closed

unfoldable pub new_group : {E : Type 0} → List (Service E) → Bool → Group E
unfolding new_writer
new_group svcs done = record {
  received = [];
  dispatch = receiving;
  worker_queue = [];
  writers = map new_writer svcs;
  done = done;
}

pub data Event : Type 0 where
  receives : WriterMsg → Event
  checks : Event
  chooses : Event
  gives : Event
  enqueues : (writer : ℕ) → Event
  quits : (writer : ℕ) → Event
  writes : (writer : ℕ) → Event
  done_closes : Event

-- The dispatcher's part of `receives`, `checks` and `chooses`.
pub check : Bool → Dispatch → Option Dispatch
check done receiving = none
check done (checking m) = some (if done then quit m else choosing m)
check done (choosing m) = none
check done (giving m i) = none
check done (quit m) = none

pub receive : WriterMsg → Dispatch → Option Dispatch
receive m receiving = some (checking m)
receive m (checking n) = none
receive m (choosing n) = none
receive m (giving n i) = none
receive m (quit n) = none

pub choose : Dispatch → List ℕ → Option (Dispatch × List ℕ)
choose (choosing m) (i ∷ rest) = some (giving m i, rest)
choose (choosing m) [] = none
choose receiving q = none
choose (checking m) q = none
choose (giving m i) q = none
choose (quit m) q = none

module _ {E : Type 0} where
  -- Changes writer number `i`.
  pub update_at : ℕ → (Writer E → Option (Writer E)) → List (Writer E) → Option (List (Writer E))
  update_at i f [] = none
  update_at zero f (w ∷ ws) = f w >>= λ w'. some (w' ∷ ws)
  update_at (suc i) f (w ∷ ws) = update_at i f ws >>= λ ws'. some (w ∷ ws')

  pub enqueue : Writer E → Option (Writer E)
  enqueue w = elim w.phase [
    | enqueuing ↦ some (record w { phase = offering })
    | offering ↦ none
    | working m ↦ none
    | returned ↦ none
  ]

  pub quit_writer : Writer E → Option (Writer E)
  quit_writer w = elim w.phase [
    | enqueuing ↦ none
    | offering ↦ some (record w { phase = returned })
    | working m ↦ none
    | returned ↦ none
  ]

  pub give : WriterMsg → Writer E → Option (Writer E)
  give m w = elim w.phase [
    | enqueuing ↦ none
    | offering ↦ some (record w { phase = working m })
    | working n ↦ none
    | returned ↦ none
  ]

  pub work : Writer E → Option (Writer E)
  unfolding write
  work w = elim w.phase [
    | enqueuing ↦ none
    | offering ↦ none
    | working m ↦ some (record (write m.name m.batch w) { phase = enqueuing })
    | returned ↦ none
  ]

  pub give_at : Dispatch → List (Writer E) → Option (List (Writer E))
  unfolding give update_at
  give_at (giving m i) ws = update_at i (give m) ws
  give_at receiving ws = none
  give_at (checking m) ws = none
  give_at (choosing m) ws = none
  give_at (quit m) ws = none

  -- `none`: the event cannot happen in this state. `worker_queue` has room for every writer once.
  unfoldable pub step : Group E → Event → Option (Group E)
  unfolding update_at enqueue quit_writer work check receive choose give_at
  step g (receives m) = receive m g.dispatch >>= λ d.
      some (record g { dispatch = d; received = g.received ++ (m ∷ []) })
  step g checks = check g.done g.dispatch >>= λ d. some (record g { dispatch = d })
  step g chooses = choose g.dispatch g.worker_queue >>= λ r.
      some (record g { dispatch = r.0; worker_queue = r.1 })
  step g gives =
      give_at g.dispatch g.writers >>= λ ws. some (record g { dispatch = receiving; writers = ws })
  step g (enqueues i) =
      if ltb (length g.worker_queue) (length g.writers)
      then (update_at i enqueue g.writers >>= λ ws.
          some (record g { worker_queue = g.worker_queue ++ (i ∷ []); writers = ws }))
      else none
  step g (quits i) =
      if g.done
      then (update_at i quit_writer g.writers >>= λ ws. some (record g { writers = ws }))
      else none
  step g (writes i) = update_at i work g.writers >>= λ ws. some (record g { writers = ws })
  step g done_closes = if g.done then none else some (record g { done = true })

  unfoldable pub run : Group E → List Event → Option (Group E)
  unfolding step
  run g [] = some g
  run g (e ∷ es) = step g e >>= λ h. run h es
