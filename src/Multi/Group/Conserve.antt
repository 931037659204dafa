-- ===== src/Multi/Group/Conserve.antt =====
-- queues/sqs/multi_writer.go, `newWriterGroup`: no message is lost or repeated among the writers.
-- Several of them work at once, so their order is forgotten.
use vice.Base.{
  ◌≡◌, ap, sym, subst, subst₂, ◌∙◌, Bool, List, [], ◌∷◌, ◌++◌, some, concat_map, concat_map-append,
  append-nil, >>=-eq-some,
}
use mathlib.Core.Option.{some-injective}
use mathlib.Core.List.Perm
use mathlib.Core.List.{Perm, perm_append_comm}
use vice.Sqs.Service.{Service}
use vice.Sqs.Publisher.Order.{bodies}
use vice.Multi.Batching.Order.{bodies_of}
use vice.Multi.Group.Writers.{all_bodies, update_at-give}
use vice.Multi.Group.Held.{
  held, in_dispatch, received_bodies, Moves, comes, passes, keeps, step-Moves, held-new,
}
use vice.Multi.Group.{Group, new_group, Event, step, run}

module _ {E : Type 0} where
  abbrev pub IsConserved : Group E → Type 0
  IsConserved g = Perm (held g) (received_bodies g)

  Moves-IsConserved : (g h : Group E) → Moves g h → IsConserved g → IsConserved h
  Moves-IsConserved g h (comes m more input _) k =
      subst₂ Perm (sym more)
        (sym (
          ap (concat_map bodies_of) input
          ∙ concat_map-append bodies_of g.received (m ∷ [])
          ∙ ap (λ l. received_bodies g ++ l) (append-nil _)))
        (Perm.append_right (bodies m.batch) k)
  Moves-IsConserved g h (passes m i gives_m free updates input) k =
      subst₂ Perm (sym (ap (λ d. all_bodies h.writers ++ in_dispatch d) free ∙ append-nil _))
        (sym (ap (concat_map bodies_of) input))
        (Perm.trans (update_at-give m i g.writers h.writers updates) (
          Perm.trans (perm_append_comm (bodies m.batch) (all_bodies g.writers)) (
            subst (λ d. Perm (all_bodies g.writers ++ in_dispatch d) (received_bodies g)) gives_m
              k)))
  Moves-IsConserved g h (keeps same _ input) k =
      subst₂ Perm (sym same) (sym (ap (concat_map bodies_of) input)) k

  run_from-IsConserved :
      (g h : Group E) (es : List Event) → run g es ≡ some h → IsConserved g → IsConserved h
  unfolding run
  run_from-IsConserved g h [] r k = subst IsConserved (some-injective _ _ r) k
  run_from-IsConserved g h (e ∷ es) r k =
      let (u, now, later) = >>=-eq-some (step g e) _ r in
      run_from-IsConserved u h es later (Moves-IsConserved g u (step-Moves g u e now) k)

  -- In every interleaving of the dispatcher and the writers, the messages that the writers have
  -- handed to the service or have, together with those that the dispatcher has, are the messages
  -- of the batches received, each as often: in some order.
  pub run-IsConserved :
      (svcs : List (Service E)) (done : Bool) (g : Group E) (es : List Event)
      → run (new_group svcs done) es ≡ some g
      → Perm (all_bodies g.writers ++ in_dispatch g.dispatch) (concat_map bodies_of g.received)
  unfolding new_group
  run-IsConserved svcs done g es r =
      run_from-IsConserved (new_group svcs done) g es r
        (subst (λ l. Perm l []) (sym (held-new svcs done)) (Perm.refl []))
