-- ===== src/Multi/Group/Held.antt =====
-- queues/sqs/multi_writer.go, `newWriterGroup`: what a step does to the messages on their way.
use vice.Base.{
  ℕ, ◌≡◌, refl, ap, sym, subst, ◌∙◌, inl, inr, Bool, true, false, List, [], ◌∷◌, ◌++◌, map, some,
  Bytes, arith, concat_map, append-nil, ltb, length, Bool-cases, >>=-eq-some,
}
use mathlib.Core.Option.{some-injective}
use vice.Sqs.Service.{Service}
use vice.Sqs.Publisher.Order.{bodies}
use vice.Multi.Batching.{WriterMsg}
use vice.Multi.Batching.Order.{bodies_of}
use vice.Multi.Group.Writers.{
  all_bodies, enqueue-bodies, quit_writer-bodies, work-bodies, update_at-bodies, update_at-length,
}
use vice.Multi.Group.{
  Writer, new_writer, Dispatch, receiving, checking, choosing, giving, quit, Group, new_group,
  Event, receives, checks, chooses, gives, enqueues, quits, writes, done_closes, update_at, enqueue,
  quit_writer, give, work, receive, check, choose, give_at, step,
}

-- The messages that the dispatcher has.
abbrev pub in_dispatch : Dispatch → List Bytes
in_dispatch receiving = []
in_dispatch (checking m) = bodies m.batch
in_dispatch (choosing m) = bodies m.batch
in_dispatch (giving m i) = bodies m.batch
in_dispatch (quit m) = bodies m.batch

-- The messages of all the batches that came from `queue`.
abbrev pub received_bodies : {E : Type 0} → Group E → List Bytes
received_bodies g = concat_map bodies_of g.received

-- The messages that the writers have sent or have, and those that the dispatcher has.
abbrev pub held : {E : Type 0} → Group E → List Bytes
held g = all_bodies g.writers ++ in_dispatch g.dispatch

receive-eq :
    (m : WriterMsg) (d d' : Dispatch) → receive m d ≡ some d' → (d ≡ receiving) × (d' ≡ checking m)
unfolding receive
receive-eq m receiving d' h = (refl, sym (some-injective _ _ h))
receive-eq m (checking n) d' h = absurd (ground arith)
receive-eq m (choosing n) d' h = absurd (ground arith)
receive-eq m (giving n i) d' h = absurd (ground arith)
receive-eq m (quit n) d' h = absurd (ground arith)

check-bodies :
    (done : Bool) (d d' : Dispatch) → check done d ≡ some d' → in_dispatch d' ≡ in_dispatch d
unfolding check
check-bodies done receiving d' h = absurd (ground arith)
check-bodies true (checking m) d' h = ap in_dispatch (sym (some-injective _ _ h))
check-bodies false (checking m) d' h = ap in_dispatch (sym (some-injective _ _ h))
check-bodies done (choosing m) d' h = absurd (ground arith)
check-bodies done (giving m i) d' h = absurd (ground arith)
check-bodies done (quit m) d' h = absurd (ground arith)

choose-bodies :
    (d : Dispatch) (q : List ℕ) (r : Dispatch × List ℕ)
    → choose d q ≡ some r
    → in_dispatch r.0 ≡ in_dispatch d
unfolding choose
choose-bodies receiving q r h = absurd (ground arith)
choose-bodies (checking m) q r h = absurd (ground arith)
choose-bodies (choosing m) [] r h = absurd (ground arith)
choose-bodies (choosing m) (i ∷ q) r h =
    ap (λ (p : Dispatch × List ℕ). in_dispatch p.0) (sym (some-injective _ _ h))
choose-bodies (giving m i) q r h = absurd (ground arith)
choose-bodies (quit m) q r h = absurd (ground arith)

module _ {E : Type 0} where
  -- What a step does: work comes in, a writer takes it, or no message moves.
  pub data Moves (g h : Group E) : Type 0 where
    comes :
        (m : WriterMsg)
        → held h ≡ held g ++ bodies m.batch
        → h.received ≡ g.received ++ (m ∷ [])
        → h.writers ≡ g.writers
        → Moves g h
    passes :
        (m : WriterMsg) (i : ℕ)
        → g.dispatch ≡ giving m i
        → h.dispatch ≡ receiving
        → update_at i (give m) g.writers ≡ some h.writers
        → h.received ≡ g.received
        → Moves g h
    keeps :
        held h ≡ held g → length h.writers ≡ length g.writers → h.received ≡ g.received → Moves g h

  give_at-eq :
      (d : Dispatch) (ws ws' : List (Writer E))
      → give_at d ws ≡ some ws'
      → (m : WriterMsg) × (i : ℕ) × (d ≡ giving m i) × (update_at i (give m) ws ≡ some ws')
  unfolding give_at
  give_at-eq receiving ws ws' h = absurd (ground arith)
  give_at-eq (checking m) ws ws' h = absurd (ground arith)
  give_at-eq (choosing m) ws ws' h = absurd (ground arith)
  give_at-eq (giving m i) ws ws' h = (m, i, refl, h)
  give_at-eq (quit m) ws ws' h = absurd (ground arith)

  in_writers :
      (g : Group E) (ws : List (Writer E))
      → all_bodies ws ≡ all_bodies g.writers
      → all_bodies ws ++ in_dispatch g.dispatch ≡ held g
  in_writers g ws e = ap (λ l. l ++ in_dispatch g.dispatch) e

  in_place :
      (g : Group E) (d : Dispatch)
      → in_dispatch d ≡ in_dispatch g.dispatch
      → all_bodies g.writers ++ in_dispatch d ≡ held g
  in_place g d e = ap (λ l. all_bodies g.writers ++ l) e

  pub step-Moves : (g h : Group E) (e : Event) → step g e ≡ some h → Moves g h
  unfolding step
  step-Moves g h (receives m) s =
      let (d, now, same) = >>=-eq-some (receive m g.dispatch) _ s in
      let (free, checks_m) = receive-eq m g.dispatch d now in
      subst (Moves g) (some-injective _ _ same) (
        comes m
          (ap (λ p. all_bodies g.writers ++ in_dispatch p) checks_m
            ∙ ap (λ l. l ++ bodies m.batch)
                (sym (append-nil (all_bodies g.writers))
                  ∙ ap (λ p. all_bodies g.writers ++ in_dispatch p) (sym free)))
          refl refl)
  step-Moves g h checks s =
      let (d, now, same) = >>=-eq-some (check g.done g.dispatch) _ s in
      subst (Moves g) (some-injective _ _ same)
        (keeps (in_place g d (check-bodies g.done g.dispatch d now)) refl refl)
  step-Moves g h chooses s =
      let (r, now, same) = >>=-eq-some (choose g.dispatch g.worker_queue) _ s in
      subst (Moves g) (some-injective _ _ same)
        (keeps (in_place g r.0 (choose-bodies g.dispatch g.worker_queue r now)) refl refl)
  step-Moves g h gives s =
      let (ws, now, same) = >>=-eq-some (give_at g.dispatch g.writers) _ s in
      let (m, i, gives_m, updates) = give_at-eq g.dispatch g.writers ws now in
      subst (Moves g) (some-injective _ _ same) (passes m i gives_m refl updates refl)
  step-Moves g h (enqueues i) s =
      elim (Bool-cases (ltb (length g.worker_queue) (length g.writers))) [
        | inl room ↦
            let (ws, now, same) = >>=-eq-some (update_at i enqueue g.writers) _ (rw room at s) in
            subst (Moves g) (some-injective _ _ same) (
              keeps (in_writers g ws (update_at-bodies enqueue enqueue-bodies i g.writers ws now))
                (update_at-length enqueue i g.writers ws now) refl)
        | inr full ↦ absurd (ground arith)
      ]
  step-Moves g h (quits i) s = elim (Bool-cases g.done) [
    | inl over ↦
        let (ws, now, same) = >>=-eq-some (update_at i quit_writer g.writers) _ (rw over at s) in
        subst (Moves g) (some-injective _ _ same) (
          keeps
            (in_writers g ws (update_at-bodies quit_writer quit_writer-bodies i g.writers ws now))
            (update_at-length quit_writer i g.writers ws now) refl)
    | inr going ↦ absurd (ground arith)
  ]
  step-Moves g h (writes i) s =
      let (ws, now, same) = >>=-eq-some (update_at i work g.writers) _ s in
      subst (Moves g) (some-injective _ _ same) (
        keeps (in_writers g ws (update_at-bodies work work-bodies i g.writers ws now))
          (update_at-length work i g.writers ws now) refl)
  step-Moves g h done_closes s = elim (Bool-cases g.done) [
    | inl over ↦ absurd (ground arith)
    | inr going ↦
        let same : record g { done = true } ≡ h = ground (arith, s, going) in
        subst (Moves g) same (keeps refl refl refl)
  ]

  no_bodies : (svcs : List (Service E)) → all_bodies (map new_writer svcs) ≡ []
  unfolding new_writer
  no_bodies [] = refl
  no_bodies (svc ∷ svcs) = no_bodies svcs

  pub held-new : (svcs : List (Service E)) (done : Bool) → held (new_group svcs done) ≡ []
  unfolding new_group
  held-new svcs done = append-nil _ ∙ no_bodies svcs
