-- ===== src/Redis/Subscriber/Delivery.antt =====
-- queues/redis/redis.go, `makeSubscriber`: what becomes of the answers.
use vice.Base.{
  ◌≡◌, refl, sym, ◌∙◌, Bool, true, false, List, [], ◌∷◌, ◌++◌, some, Bytes, arith, append_assoc,
  append-nil, All,
}
use vice.Transport.{Err}
use vice.Redis.Subscriber.{Popped, pop_failed, popped, Subscriber, round, rounds}

-- `BRPop` answers with the name of the list and one value.
abbrev pub IsPair : {C : Type 0} → Bool × Popped C → Type 0
IsPair (stopped, pop_failed e) = Unit
IsPair (stopped, popped []) = ⊥
IsPair (stopped, popped (x ∷ [])) = ⊥
IsPair (stopped, popped (x ∷ y ∷ [])) = Unit
IsPair (stopped, popped (x ∷ y ∷ z ∷ r)) = ⊥

-- The values answered until the first error after the stop.
abbrev pub values : {C : Type 0} → List (Bool × Popped C) → List Bytes
values [] = []
values ((true, pop_failed e) ∷ rest) = []
values ((false, pop_failed e) ∷ rest) = values rest
values ((stopped, popped (x ∷ y ∷ [])) ∷ rest) = y ∷ values rest
values ((stopped, popped texts) ∷ rest) = values rest

-- The errors answered before the stop.
abbrev pub failures : {C : Type 0} → Bytes → List (Bool × Popped C) → List (Err C)
failures name [] = []
failures name ((true, pop_failed e) ∷ rest) = []
failures name ((false, pop_failed e) ∷ rest) =
    record { message = []; name = name; err = e } ∷ failures name rest
failures name ((stopped, popped texts) ∷ rest) = failures name rest

module _ {C : Type 0} (name : Bytes) where
  round_pair :
      (stopped : Bool) (x y : Bytes) (s : Subscriber C)
      → s.exited ≡ false
      → round name stopped (popped (x ∷ y ∷ [])) s
        ≡ some (record s { delivered = s.delivered ++ (y ∷ []) })
  unfolding round
  round_pair stopped x y s going = ground arith

  round_error :
      (e : C) (s : Subscriber C)
      → s.exited ≡ false
      → round name false (pop_failed e) s
        ≡ some (record s { errs = s.errs ++ (record { message = []; name = name; err = e } ∷ []) })
  unfolding round
  round_error e s going = ground arith

  round_last :
      (e : C) (s : Subscriber C)
      → s.exited ≡ false
      → round name true (pop_failed e) s ≡ some (record s { exited = true })
  unfolding round
  round_last e s going = ground arith

  rounds_exited :
      (rest : List (Bool × Popped C)) (s : Subscriber C)
      → s.exited ≡ true
      → rounds name rest s ≡ some s
  unfolding rounds round
  rounds_exited [] s gone = refl
  rounds_exited ((b, pop_failed e) ∷ rest) s gone = ground (arith, rounds_exited rest s gone)
  rounds_exited ((b, popped texts) ∷ rest) s gone = ground (arith, rounds_exited rest s gone)

  -- On the answers that `BRPop` documents, the goroutine never panics. Until the first error after
  -- the stop it delivers every value that was answered, once and in order, and reports every error;
  -- that error itself ends it, unreported, and nothing follows.
  pub rounds_deliver :
      (answers : List (Bool × Popped C)) (s : Subscriber C)
      → All IsPair answers
      → s.exited ≡ false
      → (t : Subscriber C) × (rounds name answers s ≡ some t)
        × (t.delivered ≡ s.delivered ++ values answers)
        × (t.errs ≡ s.errs ++ failures name answers)
  unfolding rounds
  rounds_deliver [] s pairs going = (s, refl, sym (append-nil _), sym (append-nil _))
  rounds_deliver ((true, pop_failed e) ∷ rest) s pairs going = (
    record s { exited = true },
    rw (round_last e s going) (rounds_exited rest (record s { exited = true }) refl),
    sym (append-nil _),
    sym (append-nil _),
  )
  rounds_deliver ((false, pop_failed e) ∷ rest) s pairs going =
      let s' : Subscriber C = record s {
        errs = s.errs ++ (record { message = []; name = name; err = e } ∷ []);
      } in
      let (t, run, delivers, reports) = rounds_deliver rest s' pairs.1 going in
      (t, rw (round_error e s going) run, delivers, reports ∙ append_assoc s.errs _ _)
  rounds_deliver ((stopped, popped (x ∷ y ∷ [])) ∷ rest) s pairs going =
      let s' : Subscriber C = record s { delivered = s.delivered ++ (y ∷ []) } in
      let (t, run, delivers, reports) = rounds_deliver rest s' pairs.1 going in
      (t, rw (round_pair stopped x y s going) run, delivers ∙ append_assoc s.delivered _ _, reports)
  rounds_deliver ((stopped, popped []) ∷ rest) s pairs going = absurd pairs.0
  rounds_deliver ((stopped, popped (x ∷ [])) ∷ rest) s pairs going = absurd pairs.0
  rounds_deliver ((stopped, popped (x ∷ y ∷ z ∷ r)) ∷ rest) s pairs going = absurd pairs.0
