-- ===== src/Multi/Group/Writers.antt =====
-- queues/sqs/multi_writer.go, `svcWriter`: what a writer's steps do to the messages it has.
use vice.Base.{
  ℕ, zero, suc, ◌≡◌, refl, ap, sym, subst, ◌∙◌, ◌⊎◌, inl, inr, List, [], ◌∷◌, ◌++◌, Option, some,
  Bytes, arith, length, concat_map, concat_map-append, append_assoc, append-nil, >>=-eq-some,
}
use mathlib.Core.Option.{some-injective}
use mathlib.Core.List.Perm
use mathlib.Core.List.{Perm, perm_append_comm}
use vice.Sqs.Service.{Entry, send_message, send_message_batch}
use vice.Sqs.Publisher.Order.{bodies, sent, sent_by}
use vice.Multi.Batching.{WriterMsg}
use vice.Multi.Group.{
  Phase, enqueuing, offering, working, returned, Writer, write_one, write_batch, write, update_at,
  enqueue, quit_writer, give, work,
}

-- The messages that a writer has and has not sent.
abbrev pub has : Phase → List Bytes
has (working m) = bodies m.batch
has enqueuing = []
has offering = []
has returned = []

-- The messages that a writer has sent, in order, and those that it has.
abbrev pub writer_bodies : {E : Type 0} → Writer E → List Bytes
writer_bodies w = sent w.calls ++ has w.phase

pub Phase-cases :
    (p : Phase)
    → (p ≡ enqueuing) ⊎ ((p ≡ offering) ⊎ (((m : WriterMsg) × (p ≡ working m)) ⊎ (p ≡ returned)))
Phase-cases enqueuing = inl refl
Phase-cases offering = inr (inl refl)
Phase-cases (working m) = inr (inr (inl (m, refl)))
Phase-cases returned = inr (inr (inr refl))

module _ {E : Type 0} where
  pub enqueue-eq :
      (w w' : Writer E)
      → enqueue w ≡ some w'
      → (w.phase ≡ enqueuing) × (w' ≡ record w { phase = offering })
  unfolding enqueue
  enqueue-eq w w' h = elim (Phase-cases w.phase) [
    | inl e ↦ (e, ground arith)
    | inr (inl e) ↦ absurd (ground arith)
    | inr (inr (inl (m, e))) ↦ absurd (ground arith)
    | inr (inr (inr e)) ↦ absurd (ground arith)
  ]

  pub quit_writer-eq :
      (w w' : Writer E)
      → quit_writer w ≡ some w'
      → (w.phase ≡ offering) × (w' ≡ record w { phase = returned })
  unfolding quit_writer
  quit_writer-eq w w' h = elim (Phase-cases w.phase) [
    | inl e ↦ absurd (ground arith)
    | inr (inl e) ↦ (e, ground arith)
    | inr (inr (inl (m, e))) ↦ absurd (ground arith)
    | inr (inr (inr e)) ↦ absurd (ground arith)
  ]

  pub give-eq :
      (m : WriterMsg) (w w' : Writer E)
      → give m w ≡ some w'
      → (w.phase ≡ offering) × (w' ≡ record w { phase = working m })
  unfolding give
  give-eq m w w' h = elim (Phase-cases w.phase) [
    | inl e ↦ absurd (ground arith)
    | inr (inl e) ↦ (e, ground arith)
    | inr (inr (inl (n, e))) ↦ absurd (ground arith)
    | inr (inr (inr e)) ↦ absurd (ground arith)
  ]

  pub work-eq :
      (w w' : Writer E)
      → work w ≡ some w'
      → (m : WriterMsg) × (w.phase ≡ working m)
        × (w' ≡ record (write m.name m.batch w) { phase = enqueuing })
  unfolding work
  work-eq w w' h = elim (Phase-cases w.phase) [
    | inl e ↦ absurd (ground arith)
    | inr (inl e) ↦ absurd (ground arith)
    | inr (inr (inl (m, e))) ↦ (m, e, ground arith)
    | inr (inr (inr e)) ↦ absurd (ground arith)
  ]

  write_one-calls :
      (name : Bytes) (e : Entry) (w : Writer E)
      → (write_one name e w).calls ≡ w.calls ++ (send_message name e.body ∷ [])
  unfolding write_one
  write_one-calls name e w = ground arith

  write_batch-calls :
      (name : Bytes) (e : Entry) (es : List Entry) (w : Writer E)
      → (write_batch name (e ∷ es) w).calls ≡ w.calls ++ (send_message_batch name (e ∷ es) ∷ [])
  unfolding write_batch
  write_batch-calls name e es w = ground arith

  -- A writer hands over exactly the messages of its work.
  pub write-sent :
      (name : Bytes) (batch : List Entry) (w : Writer E)
      → sent (write name batch w).calls ≡ sent w.calls ++ bodies batch
  unfolding write
  write-sent name [] w = let e = append-nil (sent w.calls) in unfold write_batch in sym e
  write-sent name (e ∷ []) w =
      ap sent (write_one-calls name e w) ∙ concat_map-append sent_by w.calls _
  write-sent name (e ∷ f ∷ es) w =
      ap sent (write_batch-calls name e (f ∷ es) w)
      ∙ concat_map-append sent_by w.calls _
      ∙ ap (λ l. sent w.calls ++ l) (append-nil _)

  pub enqueue-bodies : (w w' : Writer E) → enqueue w ≡ some w' → writer_bodies w' ≡ writer_bodies w
  enqueue-bodies w w' h =
      let (e, same) = enqueue-eq w w' h in
      ap writer_bodies same ∙ ap (λ p. sent w.calls ++ has p) (sym e)

  pub quit_writer-bodies :
      (w w' : Writer E) → quit_writer w ≡ some w' → writer_bodies w' ≡ writer_bodies w
  quit_writer-bodies w w' h =
      let (e, same) = quit_writer-eq w w' h in
      ap writer_bodies same ∙ ap (λ p. sent w.calls ++ has p) (sym e)

  pub work-bodies : (w w' : Writer E) → work w ≡ some w' → writer_bodies w' ≡ writer_bodies w
  work-bodies w w' h =
      let (m, e, same) = work-eq w w' h in
      ap writer_bodies same
      ∙ append-nil _
      ∙ write-sent m.name m.batch w
      ∙ ap (λ p. sent w.calls ++ has p) (sym e)

  pub give-bodies :
      (m : WriterMsg) (w w' : Writer E)
      → give m w ≡ some w'
      → writer_bodies w' ≡ writer_bodies w ++ bodies m.batch
  give-bodies m w w' h =
      let (e, same) = give-eq m w w' h in
      ap writer_bodies same
      ∙ ap (λ l. l ++ bodies m.batch)
          (sym (append-nil (sent w.calls)) ∙ ap (λ p. sent w.calls ++ has p) (sym e))

  abbrev pub all_bodies : List (Writer E) → List Bytes
  all_bodies = concat_map writer_bodies

  pub update_at-bodies :
      (f : Writer E → Option (Writer E))
      → ((w w' : Writer E) → f w ≡ some w' → writer_bodies w' ≡ writer_bodies w)
      → (i : ℕ) (ws ws' : List (Writer E)) → update_at i f ws ≡ some ws'
      → all_bodies ws' ≡ all_bodies ws
  unfolding update_at
  update_at-bodies f keeps i [] ws' h = absurd (ground arith)
  update_at-bodies f keeps zero (w ∷ ws) ws' h =
      let (w', now, same) = >>=-eq-some (f w) _ h in
      ap all_bodies (sym (some-injective _ _ same)) ∙ ap (λ l. l ++ all_bodies ws) (keeps w w' now)
  update_at-bodies f keeps (suc i) (w ∷ ws) ws' h =
      let (us, now, same) = >>=-eq-some (update_at i f ws) _ h in
      ap all_bodies (sym (some-injective _ _ same))
      ∙ ap (λ l. writer_bodies w ++ l) (update_at-bodies f keeps i ws us now)

module _ {E : Type 0} where
  pub update_at-length :
      (f : Writer E → Option (Writer E)) (i : ℕ) (ws ws' : List (Writer E))
      → update_at i f ws ≡ some ws'
      → length ws' ≡ length ws
  unfolding update_at
  update_at-length f i [] ws' h = absurd (ground arith)
  update_at-length f zero (w ∷ ws) ws' h =
      let (w', now, same) = >>=-eq-some (f w) _ h in ap length (sym (some-injective _ _ same))
  update_at-length f (suc i) (w ∷ ws) ws' h =
      let (us, now, same) = >>=-eq-some (update_at i f ws) _ h in
      ap length (sym (some-injective _ _ same)) ∙ ap suc (update_at-length f i ws us now)

-- Lists in the middle come to the front.
pub perm_front : (x b y : List Bytes) → Perm ((x ++ b) ++ y) (b ++ (x ++ y))
perm_front x b y =
    subst (λ l. Perm ((x ++ b) ++ y) l) (append_assoc b x y)
      (Perm.append_right y (perm_append_comm x b))

module _ {E : Type 0} where
  pub update_at-give :
      (m : WriterMsg) (i : ℕ) (ws ws' : List (Writer E))
      → update_at i (give m) ws ≡ some ws'
      → Perm (all_bodies ws') (bodies m.batch ++ all_bodies ws)
  unfolding update_at
  update_at-give m i [] ws' h = absurd (ground arith)
  update_at-give m zero (w ∷ ws) ws' h =
      let (w', now, same) = >>=-eq-some (give m w) _ h in
      subst (λ l. Perm l (bodies m.batch ++ all_bodies (w ∷ ws)))
        (sym (
          ap all_bodies (sym (some-injective _ _ same))
          ∙ ap (λ l. l ++ all_bodies ws) (give-bodies m w w' now)))
        (perm_front (writer_bodies w) (bodies m.batch) (all_bodies ws))
  update_at-give m (suc i) (w ∷ ws) ws' h =
      let (us, now, same) = >>=-eq-some (update_at i (give m) ws) _ h in
      subst (λ vs. Perm (all_bodies vs) (bodies m.batch ++ all_bodies (w ∷ ws)))
        (some-injective _ _ same)
        (Perm.trans (Perm.append_left (writer_bodies w) (update_at-give m i ws us now)) (
          subst (λ l. Perm l (bodies m.batch ++ all_bodies (w ∷ ws)))
            (append_assoc (writer_bodies w) (bodies m.batch) (all_bodies ws))
            (perm_front (writer_bodies w) (bodies m.batch) (all_bodies ws))))
