-- ===== src/Multi/Group/Alive.antt =====
-- queues/sqs/multi_writer.go, `newWriterGroup` and `svcWriter`: the group goes on until `done`.
use vice.Base.{
  ℕ, zero, suc, ◌≡◌, ◌≢◌, ap, subst, inl, inr, Bool, true, false, List, [], ◌∷◌, map, Option, some,
  arith, All, Bool-cases, >>=-eq-some, ltb, length,
}
use mathlib.Core.Option.{some-injective}
use vice.Sqs.Service.{Service}
use vice.Multi.Batching.{WriterMsg}
use vice.Multi.Group.Writers.{enqueue-eq, give-eq, work-eq}
use vice.Multi.Group.{
  returned, Writer, new_writer, Dispatch, receiving, checking, choosing, giving, quit, Group,
  new_group, Event, receives, checks, chooses, gives, enqueues, quits, writes, done_closes,
  update_at, enqueue, quit_writer, give, work, receive, check, choose, give_at, step, run,
}

-- A dispatcher that has not returned.
abbrev pub Dispatches : Dispatch → Type 0
Dispatches receiving = Unit
Dispatches (checking m) = Unit
Dispatches (choosing m) = Unit
Dispatches (giving m i) = Unit
Dispatches (quit m) = ⊥

abbrev pub Works : {E : Type 0} → Writer E → Type 0
Works w = w.phase ≢ returned

receive-Dispatches : (m : WriterMsg) (d d' : Dispatch) → receive m d ≡ some d' → Dispatches d'
unfolding receive
receive-Dispatches m receiving d' h = subst Dispatches (some-injective _ _ h) tt
receive-Dispatches m (checking n) d' h = absurd (ground arith)
receive-Dispatches m (choosing n) d' h = absurd (ground arith)
receive-Dispatches m (giving n i) d' h = absurd (ground arith)
receive-Dispatches m (quit n) d' h = absurd (ground arith)

check-Dispatches : (d d' : Dispatch) → check false d ≡ some d' → Dispatches d'
unfolding check
check-Dispatches receiving d' h = absurd (ground arith)
check-Dispatches (checking m) d' h = subst Dispatches (some-injective _ _ h) tt
check-Dispatches (choosing m) d' h = absurd (ground arith)
check-Dispatches (giving m i) d' h = absurd (ground arith)
check-Dispatches (quit m) d' h = absurd (ground arith)

choose-Dispatches :
    (d : Dispatch) (q : List ℕ) (r : Dispatch × List ℕ) → choose d q ≡ some r → Dispatches r.0
unfolding choose
choose-Dispatches receiving q r h = absurd (ground arith)
choose-Dispatches (checking m) q r h = absurd (ground arith)
choose-Dispatches (choosing m) [] r h = absurd (ground arith)
choose-Dispatches (choosing m) (i ∷ q) r h =
    subst (λ (p : Dispatch × List ℕ). Dispatches p.0) (some-injective _ _ h) tt
choose-Dispatches (giving m i) q r h = absurd (ground arith)
choose-Dispatches (quit m) q r h = absurd (ground arith)

module _ {E : Type 0} where
  update_at-Works :
      (f : Writer E → Option (Writer E))
      → ((w w' : Writer E) → f w ≡ some w' → Works w')
      → (i : ℕ) (ws ws' : List (Writer E)) → update_at i f ws ≡ some ws'
      → All Works ws
      → All Works ws'
  unfolding update_at
  update_at-Works f good i [] ws' h all = absurd (ground arith)
  update_at-Works f good zero (w ∷ ws) ws' h all =
      let (w', now, same) = >>=-eq-some (f w) _ h in
      subst (All Works) (some-injective _ _ same) (good w w' now, all.1)
  update_at-Works f good (suc i) (w ∷ ws) ws' h all =
      let (us, now, same) = >>=-eq-some (update_at i f ws) _ h in
      subst (All Works) (some-injective _ _ same) (all.0, update_at-Works f good i ws us now all.1)

  enqueue-Works : (w w' : Writer E) → enqueue w ≡ some w' → Works w'
  enqueue-Works w w' h =
      let (_, same) = enqueue-eq w w' h in
      λ back. absurd (cc (back, ap (λ (v : Writer E). v.phase) same))

  give-Works : (m : WriterMsg) (w w' : Writer E) → give m w ≡ some w' → Works w'
  give-Works m w w' h =
      let (_, same) = give-eq m w w' h in
      λ back. absurd (cc (back, ap (λ (v : Writer E). v.phase) same))

  work-Works : (w w' : Writer E) → work w ≡ some w' → Works w'
  work-Works w w' h =
      let (_, _, same) = work-eq w w' h in
      λ back. absurd (cc (back, ap (λ (v : Writer E). v.phase) same))

  give_at-Works :
      (d : Dispatch) (ws ws' : List (Writer E))
      → give_at d ws ≡ some ws'
      → All Works ws
      → All Works ws'
  unfolding give_at
  give_at-Works receiving ws ws' h all = absurd (ground arith)
  give_at-Works (checking m) ws ws' h all = absurd (ground arith)
  give_at-Works (choosing m) ws ws' h all = absurd (ground arith)
  give_at-Works (giving m i) ws ws' h all = update_at-Works (give m) (give-Works m) i ws ws' h all
  give_at-Works (quit m) ws ws' h all = absurd (ground arith)

  -- Until `done` is closed the dispatcher and all writers go on.
  pub record IsAlive (g : Group E) : Type 0 where
    pub dispatches : g.done ≡ false → Dispatches g.dispatch
    pub works : g.done ≡ false → All Works g.writers

  step-IsAlive : (g h : Group E) (e : Event) → step g e ≡ some h → IsAlive g → IsAlive h
  unfolding step
  step-IsAlive g h (receives m) s k =
      let (d, now, same) = >>=-eq-some (receive m g.dispatch) _ s in
      subst IsAlive (some-injective _ _ same)
        (record { dispatches = λ _. receive-Dispatches m g.dispatch d now; works = k.works })
  step-IsAlive g h checks s k =
      let (d, now, same) = >>=-eq-some (check g.done g.dispatch) _ s in
      subst IsAlive (some-injective _ _ same) (record {
        dispatches = λ going.
            check-Dispatches g.dispatch d (subst (λ b. check b g.dispatch ≡ some d) going now);
        works = k.works;
      })
  step-IsAlive g h chooses s k =
      let (r, now, same) = >>=-eq-some (choose g.dispatch g.worker_queue) _ s in
      subst IsAlive (some-injective _ _ same) (record {
        dispatches = λ _. choose-Dispatches g.dispatch g.worker_queue r now;
        works = k.works;
      })
  step-IsAlive g h gives s k =
      let (ws, now, same) = >>=-eq-some (give_at g.dispatch g.writers) _ s in
      subst IsAlive (some-injective _ _ same) (record {
        dispatches = λ _. tt;
        works = λ going. give_at-Works g.dispatch g.writers ws now (k.works going);
      })
  step-IsAlive g h (enqueues i) s k =
      elim (Bool-cases (ltb (length g.worker_queue) (length g.writers))) [
        | inl room ↦
            let (ws, now, same) = >>=-eq-some (update_at i enqueue g.writers) _ (rw room at s) in
            subst IsAlive (some-injective _ _ same) (record {
              dispatches = k.dispatches;
              works =
                  λ going. update_at-Works enqueue enqueue-Works i g.writers ws now (k.works going);
            })
        | inr full ↦ absurd (ground arith)
      ]
  step-IsAlive g h (quits i) s k = elim (Bool-cases g.done) [
    | inl over ↦
        let (ws, now, same) = >>=-eq-some (update_at i quit_writer g.writers) _ (rw over at s) in
        subst IsAlive (some-injective _ _ same)
          (record { dispatches = λ f. absurd (cc f); works = λ f. absurd (cc f) })
    | inr going ↦ absurd (ground arith)
  ]
  step-IsAlive g h (writes i) s k =
      let (ws, now, same) = >>=-eq-some (update_at i work g.writers) _ s in
      subst IsAlive (some-injective _ _ same) (record {
        dispatches = k.dispatches;
        works = λ going. update_at-Works work work-Works i g.writers ws now (k.works going);
      })
  step-IsAlive g h done_closes s k = elim (Bool-cases g.done) [
    | inl over ↦ absurd (ground arith)
    | inr going ↦
        let same : record g { done = true } ≡ h = ground (arith, s, going) in
        subst IsAlive same (record { dispatches = λ f. absurd (cc f); works = λ f. absurd (cc f) })
  ]

  run_from-IsAlive : (g h : Group E) (es : List Event) → run g es ≡ some h → IsAlive g → IsAlive h
  unfolding run
  run_from-IsAlive g h [] r k = subst IsAlive (some-injective _ _ r) k
  run_from-IsAlive g h (e ∷ es) r k =
      let (u, now, later) = >>=-eq-some (step g e) _ r in
      run_from-IsAlive u h es later (step-IsAlive g u e now k)

  fresh_work : (svcs : List (Service E)) → All Works (map new_writer svcs)
  unfolding new_writer
  fresh_work [] = tt
  fresh_work (svc ∷ svcs) = ((λ back. absurd (cc back)), fresh_work svcs)

  pub new_group-IsAlive : (svcs : List (Service E)) (done : Bool) → IsAlive (new_group svcs done)
  unfolding new_group
  new_group-IsAlive svcs done = record { dispatches = λ _. tt; works = λ _. fresh_work svcs }

  -- Until `done` is closed, neither the dispatcher nor a writer has returned.
  pub run-IsAlive :
      (svcs : List (Service E)) (done : Bool) (g : Group E) (es : List Event)
      → run (new_group svcs done) es ≡ some g
      → g.done ≡ false
      → Dispatches g.dispatch × All Works g.writers
  run-IsAlive svcs done g es r going =
      let k = run_from-IsAlive (new_group svcs done) g es r (new_group-IsAlive svcs done) in
      (k.dispatches going, k.works going)
