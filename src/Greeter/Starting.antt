-- ===== src/Greeter/Starting.antt =====
-- example/greeter/service/main.go, `main`: the channels that the loop works on.
use vice.Base.{
  ℕ, false, ◌+◌, ◌<◌, ◌≡◌, ◌≢◌, refl, ap, sym, inl, inr, List, [], ◌∷◌, Option, none, some, codes,
  arith, Option-cases,
}
use vice.Transport.{Err}
use vice.Hub.{obtain, fail}
use vice.Nsq.{Library, NsqHub, Worker, new, new_state, send, make_producer}
use vice.Nsq.Makers.{with_consumer, receive-connects}
use vice.Greeter.{start}

-- The errors that wait on the error channel.
abbrev pub start_errs : {C : Type 0} → Option C → List (Err C)
start_errs none = []
start_errs (some e) = record { message = []; name = codes "greetings"; err = e } ∷ []

module _ {C : Type 0} (lib : Library C) where
  abbrev with_names : ℕ → NsqHub C
  with_names calls = with_consumer (codes "names") calls new

  greetings-sent :
      (calls : ℕ)
      → (t : NsqHub C) × (ch : ℕ) × (send lib (codes "greetings") (with_names calls) ≡ some (t, ch))
        × (0 ≢ ch)
        × (t.own.connects ≡ calls)
        × (t.err_chan ≡ start_errs (lib.new_producer 0))
  unfolding send obtain make_producer new fail
  greetings-sent calls = elim (Option-cases (lib.new_producer 0)) [
    | inl fine ↦
        let worker : Worker C = record {
          name = codes "greetings";
          chan = 1;
          state = new_state false;
        } in
        let t : NsqHub C = record (with_names calls) {
          chans = 2;
          send_chans = (codes "greetings", 1) ∷ [];
          own = record (with_names calls).own { new_producers = 1; producers = worker ∷ [] };
        } in
        (t, 1, ground (arith, fine), omega arith, omega arith, ap start_errs (sym fine))
    | inr (e, failed) ↦
        let t : NsqHub C = record (with_names calls) {
          chans = 3;
          err_chan = record { message = []; name = codes "greetings"; err = e } ∷ [];
          own = record (with_names calls).own { new_producers = 1 };
        } in
        (t, 2, ground (arith, failed), omega arith, omega arith, ap start_errs (sym failed))
  ]

  -- If NewConsumer succeeds, and the call of `ConnectConsumer` after `j` failed ones does, `main`
  -- comes to its loop after `j + 1` calls, with two different channels; it has one error to read, that
  -- of NewProducer, if that failed.
  pub start-connects :
      (j fuel : ℕ)
      → lib.new_consumer 0 (codes "names") ≡ none
      → ((i : ℕ) → i < j → lib.connect 0 i ≢ none)
      → lib.connect 0 j ≡ none
      → j < fuel
      → (t : NsqHub C) × (names greetings : ℕ) × (start lib fuel ≡ some (t, names, greetings))
        × (names ≢ greetings)
        × (t.own.connects ≡ j + 1)
        × (t.err_chan ≡ start_errs (lib.new_producer 0))
  unfolding start new
  start-connects j fuel new_ok refused conn_ok enough =
      let runs =
        receive-connects lib (codes "names") new j fuel refl new_ok refused conn_ok enough in
      let (t, ch, sends, other, count, errs) = greetings-sent (j + 1) in
      (t, 0, ch, rw (runs, start) (rw sends refl), other, count, errs)
