-- ===== src/Sqs/Subscriber/Examples.antt =====
-- Rounds of the goroutine, and the theorems about it at those rounds. The service returns two
-- messages, and cannot delete the second one if `stuck`.
use vice.Base.{
  ℕ, ◌≡◌, refl, Bool, true, false, List, [], ◌∷◌, ◌++◌, none, some, Bytes, codes, bytes_eq,
  if◌then◌else◌,
}
use vice.Sqs.Service.{Message, receive_message, delete_message, Service, failed, messages, service}
use vice.Sqs.Subscriber.{Subscriber, poll}
use vice.Sqs.Subscriber.Delivery.{Accounts, poll-Accounts}

abbrev two : List Message
two =
    record { receipt_handle = some (codes "1"); body = codes "x" }
    ∷ record { receipt_handle = some (codes "2"); body = codes "y" }
    ∷ []

abbrev answering : Bool → Service ℕ
answering stuck = record {
  on_send = λ before url body. none;
  on_batch = λ before url entries. failed [];
  on_receive = λ before url. messages two;
  on_delete = λ before url handle.
      if stuck then (if bytes_eq handle (codes "2") then some 5 else none) else none;
}

abbrev start : Subscriber ℕ
start = record { calls = []; errs = []; delivered = []; exited = false }

abbrev queue : Bytes
queue = codes "q"

one_stuck : poll (answering true) queue start ≡ record {
  calls =
      receive_message queue
      ∷ delete_message queue (codes "1")
      ∷ delete_message queue (codes "2")
      ∷ [];
  errs = record { message = []; name = queue; err = service 5 } ∷ [];
  delivered = codes "x" ∷ [];
  exited = false;
}
unfolding poll
one_stuck = refl

poll-Accounts_example :
    Accounts queue two
      (record start { calls = start.calls ++ (receive_message queue ∷ []) })
      (poll (answering true) queue start)
poll-Accounts_example = poll-Accounts (answering true) queue two start refl
