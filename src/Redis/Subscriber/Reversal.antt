-- ===== src/Redis/Subscriber/Reversal.antt =====
-- queues/redis/redis.go: the publisher's `RPush` and the subscriber's `BRPop` work on the same end
-- of a list. The lists of the server are a parameter, with what Redis documents of the two calls.
use vice.Base.{
  ℕ, zero, suc, ◌≡◌, refl, ap, sym, ◌∙◌, false, List, [], ◌∷◌, ◌++◌, Option, none, some, Bytes,
  arith, append_assoc, append-nil, length, length-append, inl, inr, Bool, All, Option-cases, ◌>>=◌,
}
use mathlib.Core.List.{reverse, reverse-cons, reverse-reverse}
use vice.Relay.{Attempt}
use vice.Redis.Subscriber.Delivery.{IsPair, values, rounds_deliver}
use vice.Redis.Subscriber.{Popped, popped, Subscriber, rounds}

pub record RedisServer : Type 1 where
  pub Store : Type 0
  pub items : Store → Bytes → List Bytes
  pub rpush : Bytes → Bytes → Store → Store
  -- none: the list is empty, and the call waits
  pub brpop : Bytes → Store → Option (Bytes × Store)
  pub items-rpush :
      (name v : Bytes) (s : Store) → items (rpush name v s) name ≡ items s name ++ (v ∷ [])
  pub brpop-items :
      (name v : Bytes) (vs : List Bytes) (s : Store)
      → items s name ≡ vs ++ (v ∷ [])
      → (t : Store) × (brpop name s ≡ some (v, t)) × (items t name ≡ vs)

length-reverse : (l : List Bytes) → length (reverse l) ≡ length l
length-reverse [] = refl
length-reverse (x ∷ l) =
    ap length (reverse-cons x l)
    ∙ length-append (reverse l) (x ∷ [])
    ∙ omega (arith, length-reverse l)

-- The messages whose send returned no error.
abbrev pub succeeded : {C : Type 0} → List (Attempt C) → List Bytes
succeeded [] = []
succeeded (a ∷ rest) = elim a.result [ none ↦ a.message ∷ succeeded rest | some e ↦ succeeded rest ]

module _ (server : RedisServer) (C : Type 0) (name : Bytes) where
  open server use {Store, items, rpush, brpop, items-rpush, brpop-items}

  -- What the sends of a publisher do to the server.
  pub push_attempts : List (Attempt C) → Store → Store
  push_attempts [] s = s
  push_attempts (a ∷ rest) s =
      push_attempts rest (elim a.result [ none ↦ rpush name a.message s | some e ↦ s ])

  -- The answers to this many polls of a subscriber, each the name and a value.
  pub pop_answers : ℕ → Store → Option (List (Bool × Popped C) × Store)
  pop_answers zero s = some ([], s)
  pop_answers (suc n) s = brpop name s >>= λ r.
      pop_answers n r.1 >>= λ q. some ((false, popped (name ∷ r.0 ∷ [])) ∷ q.0, q.1)

  items-push_attempts :
      (attempts : List (Attempt C)) (s : Store)
      → items (push_attempts attempts s) name ≡ items s name ++ succeeded attempts
  unfolding push_attempts
  items-push_attempts [] s = sym (append-nil _)
  items-push_attempts (a ∷ rest) s = elim (Option-cases a.result) [
    | inl fine ↦ ground (
      arith,
      items-push_attempts rest (rpush name a.message s),
      items-rpush name a.message s,
      append_assoc (items s name) (a.message ∷ []) (succeeded rest),
    )
    | inr (e, failed) ↦ ground (arith, items-push_attempts rest s)
  ]

  -- What is stored in reverse comes out in order.
  pop_answers-values :
      (vs : List Bytes) (s : Store)
      → items s name ≡ reverse vs
      → (answers : List (Bool × Popped C)) × (t : Store) × (pop_answers (length vs) s
          ≡ some (answers, t))
        × (values answers ≡ vs)
        × All IsPair answers
  unfolding pop_answers
  pop_answers-values [] s held = ([], s, refl, refl, tt)
  pop_answers-values (v ∷ vs) s held =
      let (t, popped_v, left) = brpop-items name v (reverse vs) s (held ∙ reverse-cons v vs) in
      let (answers, u, more, vals, pairs) = pop_answers-values vs t left in
      (
        (false, popped (name ∷ v ∷ [])) ∷ answers,
        u,
        rw popped_v (rw more),
        ap (◌∷◌ v) vals,
        (tt, pairs),
      )

  -- A list is a stack, not a queue: messages that a publisher has sent to an empty list before a
  -- subscriber polls it are delivered in the reverse of the order in which they were sent.
  pub delivered_reversed :
      (attempts : List (Attempt C)) (s : Store) (sub : Subscriber C)
      → items s name ≡ []
      → sub.exited ≡ false
      → (answers : List (Bool × Popped C)) × (u : Store) × (t : Subscriber C) × (pop_answers
            (length (succeeded attempts))
            (push_attempts attempts s)
          ≡ some (answers, u))
        × (rounds name answers sub ≡ some t)
        × (t.delivered ≡ sub.delivered ++ reverse (succeeded attempts))
  delivered_reversed attempts s sub empty going =
      let vs = reverse (succeeded attempts) in
      let held =
        items-push_attempts attempts s
        ∙ ap (λ l. l ++ succeeded attempts) empty
        ∙ sym (reverse-reverse (succeeded attempts)) in
      let (answers, u, pops, vals, pairs) = pop_answers-values vs (push_attempts attempts s) held in
      let (t, run, delivers, _) = rounds_deliver name answers sub pairs going in
      (
        answers,
        u,
        t,
        ap (λ n. pop_answers n (push_attempts attempts s))
              (sym (length-reverse (succeeded attempts)))
            ∙ pops,
        run,
        delivers ∙ ap (λ l. sub.delivered ++ l) vals,
      )
