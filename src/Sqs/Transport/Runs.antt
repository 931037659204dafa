-- ===== src/Sqs/Transport/Runs.antt =====
-- queues/sqs/sqs.go: whole runs of a transport, from `New` to the end of `Stop`.
use vice.Base.{ℕ, ◌≡◌, false, List, Bytes}
use vice.Hub.Runs.{Machine}
use vice.Hub.Logs.{Logged}
use vice.Sqs.Service.{Cause}
use vice.Sqs.Publisher.{Event}
use vice.Sqs.Transport.Stopping.{Tracked}
use vice.Sqs.Transport.{
  Own, NewService, SqsHub, send, receive, stop_begins, wait_ends, stop_ends, publisher_event,
}

module _ {E : Type 0} (create : ℕ → Bytes → NewService E) where
  abbrev pub sqs_transport : Machine (Own E) (Cause E) (ℕ × Event)
  sqs_transport = record {
    send = send create;
    receive = receive create;
    event = λ e h. publisher_event e.0 e.1 h;
    stop_begins = stop_begins;
    wait_ends = wait_ends;
    stop_ends = stop_ends;
  }

  -- All publishers are tracked, and `Stop` is not past its wait.
  record IsWatched (es : ℕ → List Event) (o : Own E) : Type 0 where
    tracked : Logged (Tracked o.batch_size o.stop_pub_chan) o.publishers es
    not_waited : o.waited ≡ false
    open_chan : o.stopchan ≡ false

  abbrev SameEnd : SqsHub E → SqsHub E → Type 0
  SameEnd h t = (t.own.waited ≡ h.own.waited) × (t.own.stopchan ≡ h.own.stopchan)

  abbrev SamePublishers : SqsHub E → SqsHub E → Type 0
  SamePublishers h t =
      (t.own.batch_size ≡ h.own.batch_size)
      × (t.own.stop_pub_chan ≡ h.own.stop_pub_chan)
      × (t.own.publishers ≡ h.own.publishers)
      × SameEnd h t
