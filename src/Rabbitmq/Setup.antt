-- ===== src/Rabbitmq/Setup.antt =====
-- queues/rabbitmq/rabbitmq.go: the requests of `makeSubscriber` and `makePublisher`.
use vice.Base.{
  ℕ, ◌+◌, ◌≤◌, ◌<◌, ◌≡◌, refl, ◌∙◌, true, false, List, [], ◌∷◌, ◌++◌, none, Bytes, arith,
  append_assoc,
}
use vice.Hub.{made, not_made, IsMaker, Keeps}
use vice.Rabbitmq.{
  Request, open_channel, queue_declare, qos, consume, Library, RabbitHub, make_subscriber,
  make_publisher,
}

four_more :
    (l : List Request) (a b c d : Request)
    → (((l ++ (a ∷ [])) ++ (b ∷ [])) ++ (c ∷ [])) ++ (d ∷ []) ≡ l ++ (a ∷ b ∷ c ∷ d ∷ [])
four_more l a b c d = simp append_assoc

module _ {Conn C : Type 0} (lib : Library Conn C) where
  subscriber-Keeps :
      (name : Bytes) (h h' : RabbitHub Conn C) (ch : ℕ)
      → make_subscriber lib name h ≡ made h' ch
      → Keeps h h' × (h.chans ≤ ch) × (ch < h'.chans)
  unfolding make_subscriber
  subscriber-Keeps name h h' ch e = ground arith

  subscriber-Keeps_failed :
      (name : Bytes) (h h' : RabbitHub Conn C) (c : C)
      → make_subscriber lib name h ≡ not_made h' c
      → Keeps h h'
  unfolding make_subscriber
  subscriber-Keeps_failed name h h' c e = ground arith

  publisher-Keeps :
      (name : Bytes) (h h' : RabbitHub Conn C) (ch : ℕ)
      → make_publisher lib name h ≡ made h' ch
      → Keeps h h' × (h.chans ≤ ch) × (ch < h'.chans)
  unfolding make_publisher
  publisher-Keeps name h h' ch e = ground arith

  publisher-Keeps_failed :
      (name : Bytes) (h h' : RabbitHub Conn C) (c : C)
      → make_publisher lib name h ≡ not_made h' c
      → Keeps h h'
  unfolding make_publisher
  publisher-Keeps_failed name h h' c e = ground arith

  pub rabbit_subscriber-IsMaker : IsMaker (make_subscriber lib)
  rabbit_subscriber-IsMaker = record {
    keeps = λ name h h' ch e. (subscriber-Keeps name h h' ch e).0;
    is_new = λ name h h' ch e. let (_, low, high) = subscriber-Keeps name h h' ch e in (low, high);
    keeps_failed = subscriber-Keeps_failed;
  }

  pub rabbit_publisher-IsMaker : IsMaker (make_publisher lib)
  rabbit_publisher-IsMaker = record {
    keeps = λ name h h' ch e. (publisher-Keeps name h h' ch e).0;
    is_new = λ name h h' ch e. let (_, low, high) = publisher-Keeps name h h' ch e in (low, high);
    keeps_failed = publisher-Keeps_failed;
  }

  -- The requests that set up a subscriber, through one AMQP channel.
  abbrev pub setup : ℕ → Bytes → Bytes → List Request
  setup rmqch name queue =
      open_channel
      ∷ queue_declare rmqch name true false false false
      ∷ qos rmqch 1 0 false
      ∷ consume rmqch queue [] false false false false
      ∷ []

  -- A subscriber that was made has made these requests and no other, in this order: a new AMQP
  -- channel, a durable queue of the name, a limit of one delivery that is not acknowledged, and
  -- deliveries from the declared queue with acknowledgement by hand; none of them failed.
  pub make_subscriber-setup :
      (name : Bytes) (h t : RabbitHub Conn C) (ch : ℕ)
      → make_subscriber lib name h ≡ made t ch
      → (queue : Bytes) × (t.own.requests ≡ h.own.requests ++ setup h.own.channels name queue)
        × (queue ≡ lib.queue_name (h.own.requests ++ (open_channel ∷ [])) name)
        × (lib.answer h.own.requests open_channel ≡ none)
        × (t.own.channels ≡ h.own.channels + 1)
  unfolding make_subscriber
  make_subscriber-setup name h t ch m = (
    lib.queue_name (h.own.requests ++ (open_channel ∷ [])) name,
    ground (arith, m) ∙ four_more h.own.requests _ _ _ _,
    refl,
    ground arith,
    ground arith,
  )
