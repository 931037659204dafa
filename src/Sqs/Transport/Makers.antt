-- ===== src/Sqs/Transport/Makers.antt =====
-- queues/sqs/sqs.go: `makeSubscriber` and `makePublisher` are what `Receive` and `Send` rely on, and
-- what `New` makes of its arguments.
use vice.Base.{ℕ, ◌≤◌, ◌<◌, ◌≡◌, Bytes, arith}
use vice.Hub.{made, not_made, IsMaker, Keeps}
use vice.Sqs.Service.{Cause}
use vice.Sqs.Transport.{NewService, SqsHub, new, make_subscriber, make_publisher}

-- `New` limits a batch to ten entries, the service's own limit, and never polls without a pause.
pub new_limits :
    (E : Type 0) (batch_size batch_interval : ℕ)
    → let own = (new {E = E} batch_size batch_interval).own in
      (own.batch_size ≤ 10)
      × (own.batch_size ≤ batch_size)
      × (batch_size ≤ 10 → own.batch_size ≡ batch_size)
      × (0 < own.batch_interval)
unfolding new
new_limits E batch_size batch_interval =
    (ground arith, ground arith, λ h. ground arith, ground arith)

module _ {E : Type 0} (create : ℕ → Bytes → NewService E) where
  subscriber-Keeps :
      (name : Bytes) (h h' : SqsHub E) (ch : ℕ)
      → make_subscriber create name h ≡ made h' ch
      → Keeps h h' × (h.chans ≤ ch) × (ch < h'.chans)
  unfolding make_subscriber
  subscriber-Keeps name h h' ch e = ground arith

  subscriber-Keeps_failed :
      (name : Bytes) (h h' : SqsHub E) (c : Cause E)
      → make_subscriber create name h ≡ not_made h' c
      → Keeps h h'
  unfolding make_subscriber
  subscriber-Keeps_failed name h h' c e = ground arith

  publisher-Keeps :
      (name : Bytes) (h h' : SqsHub E) (ch : ℕ)
      → make_publisher create name h ≡ made h' ch
      → Keeps h h' × (h.chans ≤ ch) × (ch < h'.chans)
  unfolding make_publisher
  publisher-Keeps name h h' ch e = ground arith

  publisher-Keeps_failed :
      (name : Bytes) (h h' : SqsHub E) (c : Cause E)
      → make_publisher create name h ≡ not_made h' c
      → Keeps h h'
  unfolding make_publisher
  publisher-Keeps_failed name h h' c e = ground arith

  pub make_subscriber-IsMaker : IsMaker (make_subscriber create)
  make_subscriber-IsMaker = record {
    keeps = λ name h h' ch e. (subscriber-Keeps name h h' ch e).0;
    is_new = λ name h h' ch e. let (_, low, high) = subscriber-Keeps name h h' ch e in (low, high);
    keeps_failed = subscriber-Keeps_failed;
  }

  pub make_publisher-IsMaker : IsMaker (make_publisher create)
  make_publisher-IsMaker = record {
    keeps = λ name h h' ch e. (publisher-Keeps name h h' ch e).0;
    is_new = λ name h h' ch e. let (_, low, high) = publisher-Keeps name h h' ch e in (low, high);
    keeps_failed = publisher-Keeps_failed;
  }
