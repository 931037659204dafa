-- ===== src/Rabbitmq/Fields.antt =====
-- queues/rabbitmq/rabbitmq.go: what the makers do to the publishers and to stopPubChan.
use vice.Base.{ℕ, ◌≡◌, refl, ap, ◌⊎◌, inl, inr, [], ◌∷◌, ◌++◌, Bytes, arith}
use vice.Hub.{made, not_made}
use vice.Rabbitmq.Sending.{new_publisher}
use vice.Rabbitmq.{
  Opened, opened, not_opened, open_queue, Library, Worker, RabbitHub, make_subscriber,
  make_publisher,
}

-- `Stop` is as far as before.
abbrev pub SameEnd : {Conn C : Type 0} → RabbitHub Conn C → RabbitHub Conn C → Type 0
SameEnd h t = (t.own.waited ≡ h.own.waited) × (t.own.stopchan ≡ h.own.stopchan)

module _ {Conn C : Type 0} (lib : Library Conn C) where
  opened-fields :
      (name : Bytes) (h t : RabbitHub Conn C) (rmqch : ℕ) (queue : Bytes)
      → open_queue lib name h ≡ opened t rmqch queue
      → (t.own.stop_pub_chan ≡ h.own.stop_pub_chan)
        × (t.own.publishers ≡ h.own.publishers)
        × SameEnd h t
  unfolding open_queue
  opened-fields name h t rmqch queue o = (ground arith, ground arith, (ground arith, ground arith))

  not_opened-fields :
      (name : Bytes) (h t : RabbitHub Conn C) (e : C)
      → open_queue lib name h ≡ not_opened t e
      → (t.own.stop_pub_chan ≡ h.own.stop_pub_chan)
        × (t.own.publishers ≡ h.own.publishers)
        × SameEnd h t
  unfolding open_queue
  not_opened-fields name h t e o = (ground arith, ground arith, (ground arith, ground arith))

  Opened-cases :
      (o : Opened Conn C)
      → ((t : RabbitHub Conn C) × (rmqch : ℕ) × (queue : Bytes) × (o ≡ opened t rmqch queue))
        ⊎ ((t : RabbitHub Conn C) × (e : C) × (o ≡ not_opened t e))
  Opened-cases (opened t rmqch queue) = inl (t, rmqch, queue, refl)
  Opened-cases (not_opened t e) = inr (t, e, refl)

  pub made-fields :
      (name : Bytes) (h t : RabbitHub Conn C) (ch : ℕ)
      → make_publisher lib name h ≡ made t ch
      → (t.own.stop_pub_chan ≡ h.own.stop_pub_chan)
        × SameEnd h t
        × (w : Worker C) × (t.own.publishers ≡ h.own.publishers ++ (w ∷ []))
        × (w.state ≡ new_publisher h.own.stop_pub_chan)
  unfolding make_publisher
  made-fields name h t ch m = elim (Opened-cases (open_queue lib name h)) [
    | inl (u, rmqch, queue, o) ↦
        let (flag, same, (waited, closed)) = opened-fields name h u rmqch queue o in
        let w : Worker C = record {
          name = name;
          chan = u.chans;
          rmqch = rmqch;
          queue = queue;
          state = new_publisher u.own.stop_pub_chan;
        } in
        (
          ground (arith, m, o, flag),
          (ground (arith, m, o, waited), ground (arith, m, o, closed)),
          w,
          ground (arith, m, o, same),
          ap new_publisher flag,
        )
    | inr (u, e, o) ↦ absurd (ground (arith, m, o))
  ]

  pub failed-fields :
      (name : Bytes) (h t : RabbitHub Conn C) (e : C)
      → make_publisher lib name h ≡ not_made t e
      → (t.own.stop_pub_chan ≡ h.own.stop_pub_chan)
        × (t.own.publishers ≡ h.own.publishers)
        × SameEnd h t
  unfolding make_publisher
  failed-fields name h t e m = (ground arith, ground arith, (ground arith, ground arith))

  pub subscriber-fields :
      (name : Bytes) (h t : RabbitHub Conn C) (ch : ℕ)
      → make_subscriber lib name h ≡ made t ch
      → (t.own.stop_pub_chan ≡ h.own.stop_pub_chan)
        × (t.own.publishers ≡ h.own.publishers)
        × SameEnd h t
  unfolding make_subscriber
  subscriber-fields name h t ch m = (ground arith, ground arith, (ground arith, ground arith))

  pub no_subscriber-fields :
      (name : Bytes) (h t : RabbitHub Conn C) (e : C)
      → make_subscriber lib name h ≡ not_made t e
      → (t.own.stop_pub_chan ≡ h.own.stop_pub_chan)
        × (t.own.publishers ≡ h.own.publishers)
        × SameEnd h t
  unfolding make_subscriber
  no_subscriber-fields name h t e m = (ground arith, ground arith, (ground arith, ground arith))
