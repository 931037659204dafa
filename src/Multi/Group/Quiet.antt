-- ===== src/Multi/Group/Quiet.antt =====
-- queues/sqs/multi_writer.go, `newWriterGroup`: what the group's own steps leave alone.
use vice.Base.{
  ◌≡◌, refl, subst, sym, inl, inr, true, false, List, [], ◌∷◌, ◌++◌, some, arith, ltb, length,
  Bool-cases, >>=-eq-some,
}
use mathlib.Core.Option.{some-injective}
use vice.Multi.Batching.{WriterMsg}
use vice.Multi.Group.{
  Group, Event, receives, checks, chooses, gives, enqueues, quits, writes, done_closes, receive,
  check, choose, give_at, update_at, enqueue, quit_writer, work, step, run,
}

-- An event in which neither work comes in nor `done` is closed.
abbrev pub IsQuiet : Event → Type 0
IsQuiet (receives m) = ⊥
IsQuiet done_closes = ⊥
IsQuiet _ = Unit

module _ {E : Type 0} where
  abbrev Same : Group E → Group E → Type 0
  Same g h = (h.received ≡ g.received) × (h.done ≡ g.done)

  pub step-quiet :
      (g h : Group E) (e : Event)
      → IsQuiet e
      → step g e ≡ some h
      → (h.received ≡ g.received) × (h.done ≡ g.done)
  unfolding step
  step-quiet g h (receives m) q s = absurd q
  step-quiet g h checks q s =
      let (d, now, same) = >>=-eq-some (check g.done g.dispatch) _ s in
      subst (Same g) (some-injective _ _ same) (refl, refl)
  step-quiet g h chooses q s =
      let (r, now, same) = >>=-eq-some (choose g.dispatch g.worker_queue) _ s in
      subst (Same g) (some-injective _ _ same) (refl, refl)
  step-quiet g h gives q s =
      let (ws, now, same) = >>=-eq-some (give_at g.dispatch g.writers) _ s in
      subst (Same g) (some-injective _ _ same) (refl, refl)
  step-quiet g h (enqueues i) q s =
      elim (Bool-cases (ltb (length g.worker_queue) (length g.writers))) [
        | inl room ↦
            let (ws, now, same) = >>=-eq-some (update_at i enqueue g.writers) _ (rw room at s) in
            subst (Same g) (some-injective _ _ same) (refl, refl)
        | inr full ↦ absurd (ground arith)
      ]
  step-quiet g h (quits i) q s = elim (Bool-cases g.done) [
    | inl over ↦
        let (ws, now, same) = >>=-eq-some (update_at i quit_writer g.writers) _ (rw over at s) in
        subst (Same g) (some-injective _ _ same) (refl, sym over)
    | inr going ↦ absurd (ground arith)
  ]
  step-quiet g h (writes i) q s =
      let (ws, now, same) = >>=-eq-some (update_at i work g.writers) _ s in
      subst (Same g) (some-injective _ _ same) (refl, refl)
  step-quiet g h done_closes q s = absurd q

  pub receives-same :
      (g h : Group E) (m : WriterMsg)
      → step g (receives m) ≡ some h
      → (h.received ≡ g.received ++ (m ∷ [])) × (h.done ≡ g.done)
  unfolding step
  receives-same g h m s =
      let (d, now, same) = >>=-eq-some (receive m g.dispatch) _ s in
      subst (λ (u : Group E). (u.received ≡ g.received ++ (m ∷ [])) × (u.done ≡ g.done))
        (some-injective _ _ same) (refl, refl)

  pub done_step :
      (g : Group E) → g.done ≡ false → step g done_closes ≡ some (record g { done = true })
  unfolding step
  done_step g going = ground arith

  pub run-snoc :
      (g h k : Group E) (es : List Event) (e : Event)
      → run g es ≡ some h
      → step h e ≡ some k
      → run g (es ++ (e ∷ [])) ≡ some k
  unfolding run
  run-snoc g h k [] e r s = ground arith
  run-snoc g h k (d ∷ es) e r s =
      let (u, now, later) = >>=-eq-some (step g d) _ r in rw now (run-snoc u h k es e later s)
