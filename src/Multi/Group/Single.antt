-- ===== src/Multi/Group/Single.antt =====
-- queues/sqs/multi_writer.go, `newWriterGroup`: a group of one writer keeps the order.
use vice.Base.{
  ℕ, zero, suc, ◌≡◌, refl, ap, sym, subst, ◌∙◌, Bool, List, [], ◌∷◌, ◌++◌, some, arith, length,
  concat_map, concat_map-append, append-nil, >>=-eq-some,
}
use mathlib.Core.Option.{some-injective}
use vice.Sqs.Service.{Service}
use vice.Sqs.Publisher.Order.{bodies}
use vice.Multi.Batching.{WriterMsg}
use vice.Multi.Batching.Order.{bodies_of}
use vice.Multi.Group.Writers.{all_bodies, give-bodies, update_at-length}
use vice.Multi.Group.Held.{
  held, in_dispatch, received_bodies, Moves, comes, passes, keeps, step-Moves, held-new,
}
use vice.Multi.Group.{Writer, Group, new_group, Event, give, update_at, step, run}

module _ {E : Type 0} where
  -- What the one writer has sent or has comes before what the dispatcher has.
  record IsInOrder (g : Group E) : Type 0 where
    one_writer : length g.writers ≡ 1
    in_order : held g ≡ received_bodies g

  give_one :
      (m : WriterMsg) (i : ℕ) (ws ws' : List (Writer E))
      → length ws ≡ 1
      → update_at i (give m) ws ≡ some ws'
      → all_bodies ws' ≡ all_bodies ws ++ bodies m.batch
  unfolding update_at
  give_one m i [] ws' one h = absurd (omega arith)
  give_one m zero (w ∷ []) ws' one h =
      let (w', now, same) = >>=-eq-some (give m w) _ h in
      ap all_bodies (sym (some-injective _ _ same))
      ∙ append-nil _
      ∙ give-bodies m w w' now
      ∙ ap (λ l. l ++ bodies m.batch) (sym (append-nil _))
  give_one m (suc i) (w ∷ []) ws' one h = absurd (ground arith)
  give_one m i (w ∷ v ∷ ws) ws' one h = absurd (omega arith)

  Moves-IsInOrder : (g h : Group E) → Moves g h → IsInOrder g → IsInOrder h
  Moves-IsInOrder g h (comes m more input same) k = record {
    one_writer = ap length same ∙ k.one_writer;
    in_order =
        more
        ∙ ap (λ l. l ++ bodies m.batch) k.in_order
        ∙ ap (λ l. received_bodies g ++ l) (sym (append-nil _))
        ∙ sym (concat_map-append bodies_of g.received (m ∷ []))
        ∙ sym (ap (concat_map bodies_of) input);
  }
  Moves-IsInOrder g h (passes m i gives_m free updates input) k = record {
    one_writer = update_at-length (give m) i g.writers h.writers updates ∙ k.one_writer;
    in_order =
        ap (λ d. all_bodies h.writers ++ in_dispatch d) free
        ∙ append-nil _
        ∙ give_one m i g.writers h.writers k.one_writer updates
        ∙ ap (λ d. all_bodies g.writers ++ in_dispatch d) (sym gives_m)
        ∙ k.in_order
        ∙ sym (ap (concat_map bodies_of) input);
  }
  Moves-IsInOrder g h (keeps same size input) k = record {
    one_writer = size ∙ k.one_writer;
    in_order = same ∙ k.in_order ∙ sym (ap (concat_map bodies_of) input);
  }

  run_from-IsInOrder :
      (g h : Group E) (es : List Event) → run g es ≡ some h → IsInOrder g → IsInOrder h
  unfolding run
  run_from-IsInOrder g h [] r k = subst IsInOrder (some-injective _ _ r) k
  run_from-IsInOrder g h (e ∷ es) r k =
      let (u, now, later) = >>=-eq-some (step g e) _ r in
      run_from-IsInOrder u h es later (Moves-IsInOrder g u (step-Moves g u e now) k)

  -- With one writer the order is kept: in every interleaving, the messages that it has handed to
  -- the service, then those that it has, then those that the dispatcher has, are the messages of
  -- the batches received, in the order in which they came.
  pub one_writer-order :
      (svc : Service E) (done : Bool) (g : Group E) (es : List Event)
      → run (new_group (svc ∷ []) done) es ≡ some g
      → all_bodies g.writers ++ in_dispatch g.dispatch ≡ concat_map bodies_of g.received
  unfolding new_group
  one_writer-order svc done g es r =
      let start : IsInOrder (new_group (svc ∷ []) done) = record {
        one_writer = refl;
        in_order = held-new (svc ∷ []) done;
      } in
      let k = run_from-IsInOrder (new_group (svc ∷ []) done) g es r start in k.in_order
