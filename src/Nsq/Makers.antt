-- ===== src/Nsq/Makers.antt =====
-- queues/nsq/nsq.go: `Receive` retries until it is connected, and what the makers change.
use vice.Base.{
  ℕ, ◌+◌, ◌≤◌, ◌<◌, ◌≡◌, ◌≢◌, sym, refl, ap, ◌∙◌, ◌⊎◌, inl, inr, false, [], ◌∷◌, ◌++◌, none, some,
  Bytes, arith, Option-cases, dec_lt, lookup, insert, >>=-eq-some,
}
use vice.Hub.{made, not_made, obtain, receiving, sending}
use vice.Hub.Owning.{obtain-own}
use vice.Backoff.{do_retry}
use vice.Backoff.Calls.{do_retry-unbounded}
use vice.Nsq.Producing.{one_second, ten_minutes}
use vice.Nsq.{
  Library, Consumer, Own, NsqHub, new_state, connected, make_consumer, make_producer, receive, send,
}

-- A consumer as it comes into the slice.
abbrev pub new_consumer : Bytes → ℕ → ℕ → Consumer
new_consumer name ch number = record {
  name = name;
  chan = ch;
  number = number;
  stop_called = false;
  stop_chan = false;
}

-- A transport after the first `Receive` for a name, which took `calls` calls of `ConnectConsumer`: a
-- new channel, in the map, and its consumer.
abbrev pub with_consumer : {C : Type 0} → Bytes → ℕ → NsqHub C → NsqHub C
with_consumer name calls h = record h {
  chans = h.chans + 1;
  receive_chans = insert name h.chans h.receive_chans;
  own = record h.own {
    new_consumers = h.own.new_consumers + 1;
    connects = h.own.connects + calls;
    consumers = h.own.consumers ++ (new_consumer name h.chans h.own.new_consumers ∷ []);
  };
}

module _ {C : Type 0} (lib : Library C) where
  -- The first `Receive` for a name, if NewConsumer succeeds and the call of `ConnectConsumer` after
  -- `j` failed ones does, comes back with a new channel, which it has put into the map, after exactly
  -- those `j + 1` calls. It reports no error, and changes nothing else but the consumers.
  pub receive-connects :
      (name : Bytes) (h : NsqHub C) (j fuel : ℕ)
      → lookup name h.receive_chans ≡ none
      → lib.new_consumer h.own.new_consumers name ≡ none
      → ((i : ℕ) → i < j → lib.connect h.own.new_consumers i ≢ none)
      → lib.connect h.own.new_consumers j ≡ none
      → j < fuel
      → receive lib fuel name h ≡ some (with_consumer name (j + 1) h, h.chans)
  unfolding receive make_consumer connected obtain
  receive-connects name h j fuel absent new_ok refused conn_ok enough =
      let (o, ran, r, fine) =
        do_retry-unbounded (lib.connect h.own.new_consumers) one_second ten_minutes j fuel conn_ok
          enough in
      let not_late : r.last ≤ j = elim (dec_lt j r.last) [
        | yes late ↦ absurd (r.failed j (omega arith) late conn_ok)
        | no early ↦ omega (arith, early)
      ] in
      let not_early : j ≤ r.last = elim (dec_lt r.last j) [
        | yes early ↦ absurd (refused r.last early (sym r.result ∙ fine))
        | no late ↦ omega (arith, late)
      ] in
      let count : o.calls ≡ j + 1 = omega (arith, r.counted, not_late, not_early) in
      ground (arith, absent, new_ok, ran, fine, count)

  -- What `makeConsumer` changes, whether it makes a consumer or not.
  pub consumer-made :
      (fuel : ℕ) (name : Bytes) (h t : NsqHub C) (ch : ℕ)
      → make_consumer lib fuel name h ≡ some (made t ch)
      → (calls : ℕ) × (ch ≡ h.chans)
        × (t ≡ record h {
          chans = h.chans + 1;
          own = record h.own {
            new_consumers = h.own.new_consumers + 1;
            connects = h.own.connects + calls;
            consumers = h.own.consumers ++ (new_consumer name h.chans h.own.new_consumers ∷ []);
          };
        })
  unfolding make_consumer connected
  consumer-made fuel name h t ch m =
      elim (Option-cases (lib.new_consumer h.own.new_consumers name)) [
        | inl fine ↦
            let (o, ran, same) =
              >>=-eq-some (do_retry (lib.connect h.own.new_consumers) ten_minutes 0 one_second fuel)
                _ (rw (fine, make_consumer) at m) in
            elim (Option-cases o.result) [
              | inl ok ↦ (o.calls, ground (arith, same, ok), ground (arith, same, ok))
              | inr (e, bad) ↦ absurd (ground (arith, same, bad))
            ]
        | inr (e, failed) ↦ absurd (ground (arith, m, failed))
      ]

  pub consumer-failed :
      (fuel : ℕ) (name : Bytes) (h t : NsqHub C) (e : C)
      → make_consumer lib fuel name h ≡ some (not_made t e)
      → (calls : ℕ) × (t ≡ record h {
        chans = h.chans + 1;
        own = record h.own {
          new_consumers = h.own.new_consumers + 1;
          connects = h.own.connects + calls;
        };
      })
  unfolding make_consumer connected
  consumer-failed fuel name h t e m =
      elim (Option-cases (lib.new_consumer h.own.new_consumers name)) [
        | inl fine ↦
            let (o, ran, same) =
              >>=-eq-some (do_retry (lib.connect h.own.new_consumers) ten_minutes 0 one_second fuel)
                _ (rw (fine, make_consumer) at m) in
            elim (Option-cases o.result) [
              | inl ok ↦ absurd (ground (arith, same, ok))
              | inr (e, bad) ↦ (o.calls, ground (arith, same, bad))
            ]
        | inr (e, failed) ↦ (0, ground (arith, m, failed))
      ]

  -- The part of the state that concerns stopping.
  abbrev pub SameStop : NsqHub C → NsqHub C → Type 0
  SameStop h t =
      (t.own.phase ≡ h.own.phase)
      × (t.own.stopchan ≡ h.own.stopchan)
      × (t.own.stop_prod_chan ≡ h.own.stop_prod_chan)

  SameStop-own : (h u t : NsqHub C) → t.own ≡ u.own → SameStop h u → SameStop h t
  SameStop-own h u t same (phase, closed, begun) = (
    ap (λ (o : Own C). o.phase) same ∙ phase,
    ap (λ (o : Own C). o.stopchan) same ∙ closed,
    ap (λ (o : Own C). o.stop_prod_chan) same ∙ begun,
  )

  -- `Receive` appends a consumer at most.
  pub receive-fields :
      (fuel : ℕ) (name : Bytes) (h t : NsqHub C) (ch : ℕ)
      → receive lib fuel name h ≡ some (t, ch)
      → SameStop h t
        × ((t.own.consumers ≡ h.own.consumers)
            ⊎ (t.own.consumers
                ≡ h.own.consumers ++ (new_consumer name h.chans h.own.new_consumers ∷ [])))
  unfolding receive
  receive-fields fuel name h t ch r = elim (Option-cases (lookup name h.receive_chans)) [
    | inr (c, present) ↦
        let same : h ≡ t = ground (arith, r, present) in rw same ((refl, refl, refl), inl refl)
    | inl absent ↦
        let (m, makes, obtains) =
          >>=-eq-some (make_consumer lib fuel name h) _ (rw (absent, receive) at r) in
        elim (obtain-own receiving (λ _ _. m) name h t ch obtains) [
          | inl same ↦ (
            SameStop-own h h t same (refl, refl, refl),
            inl (ap (λ (o : Own C). o.consumers) same),
          )
          | inr (inl (u, c, made_u, same)) ↦
              let (_, _, after) = consumer-made fuel name h u c (makes ∙ ap some made_u) in
              (
                SameStop-own h u t same (rw after (refl, refl, refl)),
                inr (
                    ap (λ (o : Own C). o.consumers) same
                    ∙ ap (λ (v : NsqHub C). v.own.consumers) after),
              )
          | inr (inr (u, e, failed_u, same)) ↦
              let (_, after) = consumer-failed fuel name h u e (makes ∙ ap some failed_u) in
              (
                SameStop-own h u t same (rw after (refl, refl, refl)),
                inl (
                    ap (λ (o : Own C). o.consumers) same
                    ∙ ap (λ (v : NsqHub C). v.own.consumers) after),
              )
        ]
  ]

  producer-fields :
      (name : Bytes) (h t : NsqHub C) (ch : ℕ)
      → make_producer lib name h ≡ made t ch
      → SameStop h t
        × (t.own.consumers ≡ h.own.consumers)
        × (t.own.producers
            ≡ h.own.producers
              ++ (record { name = name; chan = h.chans; state = new_state h.own.stop_prod_chan }
                  ∷ []))
  unfolding make_producer
  producer-fields name h t ch m =
      ((ground arith, ground arith, ground arith), ground arith, ground arith)

  no_producer-fields :
      (name : Bytes) (h t : NsqHub C) (e : C)
      → make_producer lib name h ≡ not_made t e
      → SameStop h t × (t.own.consumers ≡ h.own.consumers) × (t.own.producers ≡ h.own.producers)
  unfolding make_producer
  no_producer-fields name h t e m =
      ((ground arith, ground arith, ground arith), ground arith, ground arith)

  pub send-fields :
      (name : Bytes) (h t : NsqHub C) (ch : ℕ)
      → send lib name h ≡ some (t, ch)
      → SameStop h t × (t.own.consumers ≡ h.own.consumers)
  unfolding send
  send-fields name h t ch r = elim (obtain-own sending (make_producer lib) name h t ch r) [
    | inl same ↦ (SameStop-own h h t same (refl, refl, refl), ap (λ (o : Own C). o.consumers) same)
    | inr (inl (u, c, m, same)) ↦
        let (stop_same, kept, _) = producer-fields name h u c m in
        (SameStop-own h u t same stop_same, ap (λ (o : Own C). o.consumers) same ∙ kept)
    | inr (inr (u, e, m, same)) ↦
        let (stop_same, kept, _) = no_producer-fields name h u e m in
        (SameStop-own h u t same stop_same, ap (λ (o : Own C). o.consumers) same ∙ kept)
  ]
