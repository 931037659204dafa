-- ===== src/Nats/Connection.antt =====
-- queues/nats/nats.go: `newConnection` and `newStreamingConnection`, and the makers over them.
use vice.Base.{
  ℕ, zero, suc, ◌+◌, ◌≤◌, ◌<◌, ◌≡◌, ◌≢◌, refl, subst, ◌∙◌, inl, inr, true, false, [], ◌∷◌, ◌++◌,
  Option, none, some, Bytes, arith, Option-cases, Bool-cases,
}
use vice.Relay.Fleet.{start_worker}
use vice.Hub.{Answer, gives, refuses, made, not_made, IsMaker, Keeps}
use vice.Nats.{
  NatsHub, Library, new_connection, new_streaming_connection, make_subscriber, make_publisher,
  add_publisher,
}

module _ {Conn Stan C : Type 0} (lib : Library Conn Stan C) where
  subscriber-Keeps :
      (name : Bytes) (h h' : NatsHub Conn Stan C) (ch : ℕ)
      → make_subscriber lib name h ≡ made h' ch
      → Keeps h h' × (h.chans ≤ ch) × (ch < h'.chans)
  unfolding make_subscriber
  subscriber-Keeps name h h' ch e = ground arith

  subscriber-Keeps_failed :
      (name : Bytes) (h h' : NatsHub Conn Stan C) (c : C)
      → make_subscriber lib name h ≡ not_made h' c
      → Keeps h h'
  unfolding make_subscriber
  subscriber-Keeps_failed name h h' c e = ground arith

  publisher-Keeps :
      (name : Bytes) (h h' : NatsHub Conn Stan C) (ch : ℕ)
      → make_publisher lib name h ≡ made h' ch
      → Keeps h h' × (h.chans ≤ ch) × (ch < h'.chans)
  unfolding make_publisher
  publisher-Keeps name h h' ch e = ground arith

  publisher-Keeps_failed :
      (name : Bytes) (h h' : NatsHub Conn Stan C) (c : C)
      → make_publisher lib name h ≡ not_made h' c
      → Keeps h h'
  unfolding make_publisher
  publisher-Keeps_failed name h h' c e = ground arith

  pub nats_subscriber-IsMaker : IsMaker (make_subscriber lib)
  nats_subscriber-IsMaker = record {
    keeps = λ name h h' ch e. (subscriber-Keeps name h h' ch e).0;
    is_new = λ name h h' ch e. let (_, low, high) = subscriber-Keeps name h h' ch e in (low, high);
    keeps_failed = subscriber-Keeps_failed;
  }

  pub nats_publisher-IsMaker : IsMaker (make_publisher lib)
  nats_publisher-IsMaker = record {
    keeps = λ name h h' ch e. (publisher-Keeps name h h' ch e).0;
    is_new = λ name h h' ch e. let (_, low, high) = publisher-Keeps name h h' ch e in (low, high);
    keeps_failed = publisher-Keeps_failed;
  }

  -- This many calls of `makePublisher` in a row, if all fail.
  pub refused_times : ℕ → Bytes → NatsHub Conn Stan C → Option (NatsHub Conn Stan C)
  refused_times zero name h = some h
  refused_times (suc n) name h = elim (make_publisher lib name h) [
    | made h' ch ↦ none
    | not_made h' e ↦ refused_times n name h'
  ]

  dial_fails :
      (name : Bytes) (h : NatsHub Conn Stan C) (e : C)
      → h.own.nats_conn ≡ none
      → lib.connect h.own.dials ≡ refuses e
      → make_publisher lib name h
        ≡ not_made (record h { own = record h.own { dials = h.own.dials + 1 } }) e
  unfolding make_publisher new_connection
  dial_fails name h e nil_conn down = ground arith

  dial_works :
      (name : Bytes) (h : NatsHub Conn Stan C) (c : Conn)
      → h.own.nats_conn ≡ none
      → h.own.nats_streaming ≡ false
      → lib.connect h.own.dials ≡ gives c
      → (t : NatsHub Conn Stan C) × (make_publisher lib name h ≡ made t h.chans)
        × (t.own.nats_conn ≡ some c)
        × (t.own.dials ≡ h.own.dials + 1)
  unfolding make_publisher new_connection add_publisher
  dial_works name h c nil_conn plain up =
      let t : NatsHub Conn Stan C = record h {
        chans = h.chans + 1;
        own = record h.own {
          nats_conn = some c;
          dials = h.own.dials + 1;
          publishers = h.own.publishers ++ (start_worker name h.chans h.own.stop_pub_chan ∷ []);
        };
      } in
      (t, ground arith, refl, refl)

  answer_at : (i j : ℕ) (a : Answer Conn C) → i ≡ j → lib.connect i ≡ a → lib.connect j ≡ a
  answer_at i j a same e = subst (λ k. lib.connect k ≡ a) same e

  refused_again :
      (name : Bytes) (n : ℕ) (h : NatsHub Conn Stan C) {h' : NatsHub Conn Stan C} (e : C)
      → make_publisher lib name h ≡ not_made h' e
      → refused_times (suc n) name h ≡ refused_times n name h'
  unfolding refused_times
  refused_again name n h e m = ground (arith, m)

  -- Without streaming, a transport whose calls of `nats.Connect` fail dials again at each call of
  -- `makePublisher`: after any number of failures the first connection that succeeds is used, and
  -- the call that dialled it returns a new channel.
  pub make_publisher_retries :
      (name : Bytes) (n : ℕ) (h : NatsHub Conn Stan C) (c : Conn)
      → h.own.nats_conn ≡ none
      → h.own.nats_streaming ≡ false
      → ((i : ℕ) → i < n → (e : C) × (lib.connect (h.own.dials + i) ≡ refuses e))
      → lib.connect (h.own.dials + n) ≡ gives c
      → (h' t : NatsHub Conn Stan C) × (refused_times n name h ≡ some h')
        × (make_publisher lib name h' ≡ made t h.chans)
        × (t.own.nats_conn ≡ some c)
        × (t.own.dials ≡ h.own.dials + n + 1)
  unfolding refused_times
  make_publisher_retries name zero h c nil_conn plain down up =
      let (t, m, conn, d) =
        dial_works name h c nil_conn plain (answer_at _ _ (gives c) (omega arith) up) in
      (h, t, refl, m, conn, omega (arith, d))
  make_publisher_retries name (suc n) h c nil_conn plain down up =
      let (e, first) = down 0 (omega arith) in
      let h₁ : NatsHub Conn Stan C = record h { own = record h.own { dials = h.own.dials + 1 } } in
      let (h', t, fails, m, conn, d) =
        make_publisher_retries name n h₁ c nil_conn plain
          (λ i low.
            let (e', later) = down (i + 1) (omega (arith, low)) in
            (e', answer_at _ _ (refuses e') (omega arith) later))
          (answer_at _ _ (gives c) (omega arith) up) in
      (
        h',
        t,
        refused_again name n h e
              (dial_fails name h e nil_conn (answer_at _ _ (refuses e) (omega arith) first))
            ∙ fails,
        m,
        conn,
        omega (arith, d),
      )

  publisher-connects :
      (name : Bytes) (h t : NatsHub Conn Stan C) (ch : ℕ)
      → make_publisher lib name h ≡ made t ch
      → t.own.nats_conn ≢ none
  unfolding make_publisher new_connection new_streaming_connection add_publisher
  publisher-connects name h t ch m absent = ground arith

  publisher-streams :
      (name : Bytes) (h t : NatsHub Conn Stan C) (ch : ℕ)
      → make_publisher lib name h ≡ made t ch
      → t.own.nats_streaming ≡ true
      → t.own.nats_streaming_conn ≢ none
  unfolding make_publisher new_connection new_streaming_connection add_publisher
  publisher-streams name h t ch m on absent = ground arith

  -- One connection serves all names: once a publisher was made, no later call of `makePublisher`
  -- fails or dials again, with streaming or without.
  pub publishers_share :
      (name other : Bytes) (h t : NatsHub Conn Stan C) (ch : ℕ)
      → make_publisher lib name h ≡ made t ch
      → (u : NatsHub Conn Stan C) × (make_publisher lib other t ≡ made u t.chans)
        × (u.own.dials ≡ t.own.dials)
        × (u.own.stan_dials ≡ t.own.stan_dials)
  unfolding make_publisher new_connection new_streaming_connection add_publisher
  publishers_share name other h t ch m =
      let conn = publisher-connects name h t ch m in
      let streams = publisher-streams name h t ch m in
      let u : NatsHub Conn Stan C = record t {
        chans = t.chans + 1;
        own = record t.own {
          publishers = t.own.publishers ++ (start_worker other t.chans t.own.stop_pub_chan ∷ []);
        };
      } in
      elim (Option-cases t.own.nats_conn) [
        | inl absent ↦ absurd (conn absent)
        | inr (c, there) ↦ elim (Bool-cases t.own.nats_streaming) [
          | inl on ↦ elim (Option-cases t.own.nats_streaming_conn) [
            | inl absent ↦ absurd (streams on absent)
            | inr (s, here) ↦ (u, ground (arith, there, on, here), refl, refl)
          ]
          | inr off ↦ (u, ground (arith, there, off), refl, refl)
        ]
      ]
