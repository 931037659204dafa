-- ===== src/Sqs/Subscriber.antt =====
-- queues/sqs/sqs.go, `makeSubscriber`: the goroutine behind a receive channel. One round of its
-- loop is one event; a message counts as delivered once the channel has taken it.
pub mod Delivery
mod Examples
use vice.Base.{
  ℕ, ◌+◌, Bool, true, false, List, [], ◌∷◌, ◌++◌, Option, none, some, Bytes, if◌then◌else◌, ◌>>=◌,
}
use vice.Transport.{Err}
use vice.Sqs.Service.{
  Message, Call, receive_message, delete_message, Service, no_answer, messages, Cause, service,
}

pub record Subscriber (E : Type 0) : Type 0 where
  pub calls : List Call
  pub errs : List (Err (Cause E))
  pub delivered : List Bytes
  pub exited : Bool

unfoldable pub new_subscriber : {E : Type 0} → Subscriber E
new_subscriber = record { calls = []; errs = []; delivered = []; exited = false }

module _ {E : Type 0} (svc : Service E) (name : Bytes) where
  pub receive_err : E → Err (Cause E)
  receive_err e = record { message = []; name = name; err = service e }

  deliver : Message → Subscriber E → Subscriber E
  deliver m s = record s { delivered = s.delivered ++ (m.body ∷ []) }

  -- A message with a receipt handle is deleted first, and is delivered only if that succeeds.
  pub on_received : Message → Subscriber E → Subscriber E
  unfolding receive_err deliver
  on_received m s = elim m.receipt_handle [
    | none ↦ deliver m s
    | some handle ↦
        let t = record s { calls = s.calls ++ (delete_message name handle ∷ []) } in
        elim (svc.on_delete s.calls name handle) [
          | none ↦ deliver m t
          | some e ↦ record t { errs = s.errs ++ (receive_err e ∷ []) }
        ]
  ]

  pub on_all_received : List Message → Subscriber E → Subscriber E
  unfolding on_received
  on_all_received [] s = s
  on_all_received (m ∷ ms) s = on_all_received ms (on_received m s)

  -- The default case of the `select`: one request.
  unfoldable pub poll : Subscriber E → Subscriber E
  unfolding on_all_received receive_err
  poll s =
      let t = record s { calls = s.calls ++ (receive_message name ∷ []) } in
      elim (svc.on_receive s.calls name) [
        | no_answer e ↦ record t { errs = s.errs ++ (receive_err e ∷ []) }
        | messages ms ↦ on_all_received ms t
      ]

  -- One round: it returns once stopSubChan is closed, and polls otherwise.
  unfoldable pub round : Bool → Subscriber E → Subscriber E
  unfolding poll
  round stopped s = if s.exited then s else if stopped then record s { exited = true } else poll s

  -- The rounds, each with whether stopSubChan is closed by then.
  unfoldable pub rounds : List Bool → Subscriber E → Subscriber E
  unfolding round
  rounds [] s = s
  rounds (stopped ∷ rest) s = rounds rest (round stopped s)
