-- ===== src/Relay.antt =====
-- queues/redis/redis.go and queues/nats/nats.go, `makePublisher`: the goroutine that sends the
-- messages of a buffered channel one by one. The two differ only in the call that sends and in the
-- test of the connection; what those return at a step is part of the event. nats.go also sleeps
-- for a second after an error.
pub mod Steps
pub mod Order
pub mod Fleet
mod Examples
use vice.Base.{
  Bool, true, false, List, [], ◌∷◌, ◌++◌, Option, none, some, Bytes, ℕ, length, ltb, if◌then◌else◌,
  ◌>>=◌,
}
use vice.Transport.{Err}

-- A message that was sent, with the error that sending it returned.
pub record Attempt (C : Type 0) : Type 0 where
  pub message : Bytes
  pub result : Option C

pub record Relay (C : Type 0) : Type 0 where
  pub pending : List Bytes  -- the buffer of the channel
  pub stopping : Bool  -- stopPubChan is closed
  pub attempts : List (Attempt C)
  pub errs : List (Err C)
  pub exited : Bool

unfoldable pub new_relay : {C : Type 0} → Bool → Relay C
new_relay stopping = record {
  pending = [];
  stopping = stopping;
  attempts = [];
  errs = [];
  exited = false;
}

-- make(chan []byte, 1024)
abbrev pub relay_size : ℕ
relay_size = 1024

pub data Event (C : Type 0) : Type 0 where
  client_send : Bytes → Event C
  stop : Event C
  case_stop : (connected : Bool) → Event C
  case_message : (result : Option C) → Event C

abbrev pub report : {C : Type 0} → Bytes → Bytes → Option C → List (Err C)
report name message none = []
report name message (some c) = record { message = message; name = name; err = c } ∷ []

module _ {C : Type 0} (name : Bytes) where
  -- Sends one message.
  unfoldable pub on_message : Option C → Bytes → Relay C → Relay C
  on_message result msg s = record s {
    attempts = s.attempts ++ (record { message = msg; result = result } ∷ []);
    errs = s.errs ++ report name msg result;
  }

  -- Goes on while messages wait and the connection is up, and returns otherwise.
  unfoldable pub on_stop : Bool → Relay C → Relay C
  on_stop connected s = elim s.pending [
    | [] ↦ record s { exited = true }
    | m ∷ rest ↦ if connected then s else record s { exited = true }
  ]

  -- `none`: the event cannot happen in this state.
  unfoldable pub step : Relay C → Event C → Option (Relay C)
  unfolding on_stop on_message
  step s (client_send m) =
      if ltb (length s.pending) relay_size
      then some (record s { pending = s.pending ++ (m ∷ []) })
      else none
  step s stop = if s.stopping then none else some (record s { stopping = true })
  step s (case_stop connected) =
      if s.exited then none else if s.stopping then some (on_stop connected s) else none
  step s (case_message result) = if s.exited then none else elim s.pending [
    | [] ↦ none
    | m ∷ rest ↦ some (on_message result m (record s { pending = rest }))
  ]

  unfoldable pub run : Relay C → List (Event C) → Option (Relay C)
  unfolding step
  run s [] = some s
  run s (e ∷ es) = step s e >>= λ t. run t es
