-- ===== src/Sqs/Publisher/Fields.antt =====
-- queues/sqs/sqs.go, `makePublisher`: which fields of the goroutine's state its parts change.
use vice.Base.{ℕ, ◌≡◌, [], ◌∷◌, ◌++◌, Bytes, arith}
use vice.Sqs.Service.{send_message, send_message_batch, Service}
use vice.Sqs.Publisher.{Publisher, flush, send_one, on_message, on_timeout}

module _ {E : Type 0} (svc : Service E) (name : Bytes) where
  pub flush_fields :
      (s : Publisher E)
      → ((flush svc name s).calls ≡ s.calls ++ (send_message_batch name s.accum ∷ []))
        × ((flush svc name s).pending ≡ s.pending)
        × ((flush svc name s).accum ≡ [])
        × ((flush svc name s).exited ≡ s.exited)
  unfolding flush
  flush_fields s = ground arith

  pub send_one_fields :
      (msg : Bytes) (s : Publisher E)
      → ((send_one svc name msg s).calls ≡ s.calls ++ (send_message name msg ∷ []))
        × ((send_one svc name msg s).pending ≡ s.pending)
        × ((send_one svc name msg s).accum ≡ s.accum)
  unfolding send_one
  send_one_fields msg s = ground arith

module _ {E : Type 0} (svc : Service E) (name : Bytes) (batch_size : ℕ) where
  -- Taking a message leaves the channel and the signals to stop alone.
  pub on_message_fields :
      (now : ℕ) (msg : Bytes) (s : Publisher E)
      → ((on_message svc name batch_size now msg s).pending ≡ s.pending)
        × ((on_message svc name batch_size now msg s).stopping ≡ s.stopping)
        × ((on_message svc name batch_size now msg s).exited ≡ s.exited)
  unfolding on_message
  on_message_fields now msg s = ground arith

  pub on_timeout_fields :
      (s : Publisher E)
      → ((on_timeout svc name batch_size s).pending ≡ s.pending)
        × ((on_timeout svc name batch_size s).stopping ≡ s.stopping)
        × ((on_timeout svc name batch_size s).exited ≡ s.exited)
  unfolding on_timeout
  on_timeout_fields s = ground arith
