-- ===== src/Redis/Connection.antt =====
-- queues/redis/redis.go: `newConnection`, and the makers over it.
use vice.Base.{
  ℕ, ◌+◌, ◌≤◌, ◌<◌, ◌≡◌, refl, inl, inr, [], ◌∷◌, ◌++◌, Option, none, some, Bytes, arith,
  Option-cases,
}
use vice.Relay.Fleet.{start_worker}
use vice.Hub.{made, not_made, IsMaker, Keeps}
use vice.Redis.{RedisHub, new_connection, make_subscriber, make_publisher}

module _ {Client C : Type 0} (dial : ℕ → Client × Option C) where
  subscriber-Keeps :
      (name : Bytes) (h h' : RedisHub Client C) (ch : ℕ)
      → make_subscriber dial name h ≡ made h' ch
      → Keeps h h' × (h.chans ≤ ch) × (ch < h'.chans)
  unfolding make_subscriber
  subscriber-Keeps name h h' ch e = ground arith

  subscriber-Keeps_failed :
      (name : Bytes) (h h' : RedisHub Client C) (c : C)
      → make_subscriber dial name h ≡ not_made h' c
      → Keeps h h'
  unfolding make_subscriber
  subscriber-Keeps_failed name h h' c e = ground arith

  publisher-Keeps :
      (name : Bytes) (h h' : RedisHub Client C) (ch : ℕ)
      → make_publisher dial name h ≡ made h' ch
      → Keeps h h' × (h.chans ≤ ch) × (ch < h'.chans)
  unfolding make_publisher
  publisher-Keeps name h h' ch e = ground arith

  publisher-Keeps_failed :
      (name : Bytes) (h h' : RedisHub Client C) (c : C)
      → make_publisher dial name h ≡ not_made h' c
      → Keeps h h'
  unfolding make_publisher
  publisher-Keeps_failed name h h' c e = ground arith

  pub make_subscriber-IsMaker : IsMaker (make_subscriber dial)
  make_subscriber-IsMaker = record {
    keeps = λ name h h' ch e. (subscriber-Keeps name h h' ch e).0;
    is_new = λ name h h' ch e. let (_, low, high) = subscriber-Keeps name h h' ch e in (low, high);
    keeps_failed = subscriber-Keeps_failed;
  }

  pub make_publisher-IsMaker : IsMaker (make_publisher dial)
  make_publisher-IsMaker = record {
    keeps = λ name h h' ch e. (publisher-Keeps name h h' ch e).0;
    is_new = λ name h h' ch e. let (_, low, high) = publisher-Keeps name h h' ch e in (low, high);
    keeps_failed = publisher-Keeps_failed;
  }

  -- The first connection is kept whether or not its `Ping` succeeds: after any call, the next one
  -- returns the same client without an error and dials no more. So a transport whose first
  -- connection fails reports that once, and takes the client as good afterwards.
  pub new_connection_again :
      (h : RedisHub Client C)
      → let (t, c, err) = new_connection dial h in new_connection dial t ≡ (t, c, none)
  unfolding new_connection
  new_connection_again h = elim (Option-cases h.own.client) [
    | inl absent ↦ ground arith
    | inr (c, present) ↦ ground arith
  ]

  failed_client :
      (name : Bytes) (h h' : RedisHub Client C) (e : C)
      → make_publisher dial name h ≡ not_made h' e
      → (c : Client) × (h'.own.client ≡ some c)
  unfolding make_publisher
  failed_client name h h' e m = elim (Option-cases h.own.client) [
    | inl absent ↦ ((dial h.own.dials).0, ground arith)
    | inr (c, present) ↦ (c, ground arith)
  ]

  -- A failed first call of `makePublisher` is followed by one that succeeds, on the client that
  -- failed.
  pub make_publisher_after_failure :
      (name other : Bytes) (h h' : RedisHub Client C) (e : C)
      → make_publisher dial name h ≡ not_made h' e
      → (t : RedisHub Client C) × (make_publisher dial other h' ≡ made t h'.chans)
        × (t.own.client ≡ h'.own.client)
        × (t.own.dials ≡ h'.own.dials)
  unfolding make_publisher
  make_publisher_after_failure name other h h' e m =
      let (c, present) = failed_client name h h' e m in
      let worker = start_worker other h'.chans h'.own.stop_pub_chan in
      (
        record h' {
          chans = h'.chans + 1;
          own = record h'.own { publishers = h'.own.publishers ++ (worker ∷ []) };
        },
        ground arith,
        refl,
        refl,
      )
