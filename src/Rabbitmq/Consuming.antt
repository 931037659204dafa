-- ===== src/Rabbitmq/Consuming.antt =====
-- queues/rabbitmq/rabbitmq.go, `makeSubscriber`: the goroutine behind a receive channel. It hands a
-- delivery to the channel, and only then acknowledges it; the error of `Ack` is ignored.
pub mod Order
use vice.Base.{
  ℕ, zero, suc, ◌≡◌, refl, ap, subst, sym, ◌∙◌, ◌⊎◌, inl, inr, Bool-cases, Bool, true, false, List,
  [], ◌∷◌, ◌++◌, Option, none, some, Bytes, arith, if◌then◌else◌, ◌>>=◌, >>=-eq-some, concat_map,
  concat_map-append, append_assoc, append-nil, replicate,
}
use mathlib.Core.Option.{some-injective}

pub record Delivery : Type 0 where
  pub body : Bytes
  pub tag : ℕ

-- What the goroutine is doing: it waits in its `select`, waits for the channel to take the body,
-- acknowledges, or has returned and closed its AMQP channel.
pub data Phase : Type 0 where
  selecting : Phase
  sending : Delivery → Phase
  acking : Delivery → Phase
  returned : Phase

pub record Subscriber : Type 0 where
  pub stopping : Bool  -- stopSubChan is closed
  pub phase : Phase
  pub delivered : List Delivery  -- taken by the channel
  pub acked : List Delivery

unfoldable pub new_subscriber : Bool → Subscriber
new_subscriber stopping = record {
  stopping = stopping;
  phase = selecting;
  delivered = [];
  acked = [];
}

-- A receive from `msgs` gives a delivery, or the zero value (none) once the library has closed it.
pub data Event : Type 0 where
  stop : Event
  case_msgs : Option Delivery → Event
  case_stop : Event
  chan_takes : Event
  acks : Event

-- The zero value of a delivery.
abbrev pub zero_delivery : Delivery
zero_delivery = record { body = []; tag = 0 }

abbrev pub received : Option Delivery → Delivery
received none = zero_delivery
received (some d) = d

-- `none`: the event cannot happen in this state.
unfoldable pub step : Subscriber → Event → Option Subscriber
step s stop = if s.stopping then none else some (record s { stopping = true })
step s (case_msgs d) = elim s.phase [
  | selecting ↦ some (record s { phase = sending (received d) })
  | sending e ↦ none
  | acking e ↦ none
  | returned ↦ none
]
step s case_stop = elim s.phase [
  | selecting ↦ if s.stopping then some (record s { phase = returned }) else none
  | sending e ↦ none
  | acking e ↦ none
  | returned ↦ none
]
step s chan_takes = elim s.phase [
  | selecting ↦ none
  | sending d ↦ some (record s { phase = acking d; delivered = s.delivered ++ (d ∷ []) })
  | acking e ↦ none
  | returned ↦ none
]
step s acks = elim s.phase [
  | selecting ↦ none
  | sending e ↦ none
  | acking d ↦ some (record s { phase = selecting; acked = s.acked ++ (d ∷ []) })
  | returned ↦ none
]

unfoldable pub run : Subscriber → List Event → Option Subscriber
unfolding step
run s [] = some s
run s (e ∷ es) = step s e >>= λ t. run t es

-- The deliveries that a list of events receives.
abbrev pub received_by : Event → List Delivery
received_by (case_msgs d) = received d ∷ []
received_by _ = []

abbrev pub all_received : List Event → List Delivery
all_received = concat_map received_by

-- Received, and not yet taken by the channel.
abbrev pub in_hand : Phase → List Delivery
in_hand (sending d) = d ∷ []
in_hand _ = []

-- Taken by the channel, and not yet acknowledged.
abbrev pub unacked : Phase → List Delivery
unacked (acking d) = d ∷ []
unacked _ = []

pub record IsAcked (s : Subscriber) (input : List Delivery) : Type 0 where
  pub in_order : s.delivered ++ in_hand s.phase ≡ input
  pub acked_after : s.acked ++ unacked s.phase ≡ s.delivered
