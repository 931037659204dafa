-- ===== src/Greeter.antt =====
-- example/greeter/service/main.go: the service that answers names with greetings, over the transport
-- of queues/nsq. What is logged of an error is the error.
pub mod Answering
pub mod Starting
mod Examples
use vice.Base.{
  ℕ, Bool, true, false, List, [], ◌∷◌, ◌++◌, Option, none, some, Bytes, codes, if◌then◌else◌, ◌>>=◌,
}
use vice.Transport.{Err}
use vice.Nsq.{Library, NsqHub, new, receive, send}

-- What the loop is doing: it waits in its `select`, or in the send of a greeting, or has returned.
pub data Phase : Type 0 where
  selecting : Phase
  greeting : Bytes → Phase
  finished : Phase

pub record Greeter (C : Type 0) : Type 0 where
  pub ctx_done : Bool
  pub phase : Phase
  pub heard : List Bytes  -- received from `names`
  pub said : List Bytes  -- taken by `greetings`
  pub logged : List (Err C)

unfoldable pub new_greeter : {C : Type 0} → Greeter C
new_greeter = record { ctx_done = false; phase = selecting; heard = []; said = []; logged = [] }

pub data Event (C : Type 0) : Type 0 where
  ctx_ends : Event C
  case_done : Event C
  case_err : Err C → Event C
  case_name : Bytes → Event C
  greetings_takes : Event C

abbrev pub greet : Bytes → Bytes
greet name = codes "Hello " ++ name

module _ {C : Type 0} where
  -- Only the waiting loop takes a case.
  abbrev pub selects : Phase → Option (Greeter C) → Option (Greeter C)
  selects selecting next = next
  selects (greeting g) next = none
  selects finished next = none

  pub said_by : Phase → Greeter C → Option (Greeter C)
  said_by (greeting g) s = some (record s { phase = selecting; said = s.said ++ (g ∷ []) })
  said_by selecting s = none
  said_by finished s = none

  -- `none`: the event cannot happen in this state.
  unfoldable pub step : Greeter C → Event C → Option (Greeter C)
  unfolding said_by
  step s ctx_ends = if s.ctx_done then none else some (record s { ctx_done = true })
  step s case_done =
      selects s.phase (if s.ctx_done then some (record s { phase = finished }) else none)
  step s (case_err e) = selects s.phase (some (record s { logged = s.logged ++ (e ∷ []) }))
  step s (case_name name) =
      selects s.phase
        (some (record s { heard = s.heard ++ (name ∷ []); phase = greeting (greet name) }))
  step s greetings_takes = said_by s.phase s

  unfoldable pub run : Greeter C → List (Event C) → Option (Greeter C)
  unfolding step
  run s [] = some s
  run s (e ∷ es) = step s e >>= λ t. run t es

  -- `main` up to the call of `Greeter`: the transport and the channels of names and of greetings.
  unfoldable pub start : Library C → ℕ → Option (NsqHub C × ℕ × ℕ)
  start lib fuel = receive lib fuel (codes "names") new >>= λ r.
      send lib (codes "greetings") r.0 >>= λ q. some (q.0, r.1, q.1)
