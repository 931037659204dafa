-- ===== src/Hub/Distinct.antt =====
-- `Send` and `Receive`: no channel serves two names, or both directions.
use vice.Base.{
  ℕ, [], ◌≤◌, ◌<◌, ◌≡◌, refl, ap, sym, ◌∙◌, ◌⊎◌, inl, inr, Bytes, List, some, arith, lookup, insert,
  lookup-insert, bytes_eq_iff,
}
use vice.Hub.Caching.{
  Obtained, found, created, broken, obtain-Obtained, fail_fields, table-fail, table-Keeps,
}
use vice.Hub.Defs.{Hub, Side, sending, receiving, table, set_table, Made, IsMaker, obtain}

module _ {X C : Type 0} where
  -- The channels of the two maps are made already, and are all different.
  pub record IsDistinct (h : Hub X C) : Type 0 where
    pub old : (a : Side) (m : Bytes) (ch : ℕ) → lookup m (table a h) ≡ some ch → ch < h.chans
    pub apart :
        (a b : Side) (m n : Bytes) (ch : ℕ)
        → lookup m (table a h) ≡ some ch
        → lookup n (table b h) ≡ some ch
        → (a ≡ b) × (m ≡ n)

  IsDistinct-tables :
      (h t : Hub X C)
      → ((a : Side) → table a t ≡ table a h)
      → h.chans ≤ t.chans
      → IsDistinct h
      → IsDistinct t
  IsDistinct-tables h t same grow d = record {
    old = λ a m ch l.
        let below = d.old a m ch (ap (lookup m) (sym (same a)) ∙ l) in omega (arith, below);
    apart = λ a b m n ch l r.
        d.apart a b m n ch (ap (lookup m) (sym (same a)) ∙ l) (ap (lookup n) (sym (same b)) ∙ r);
  }

  -- Where a channel found after an insertion was: it is the new one, or it was there before.
  lookup-set_table :
      (side a : Side) (name m : Bytes) (new ch : ℕ) (h : Hub X C)
      → lookup m (table a (set_table side (insert name new (table side h)) h)) ≡ some ch
      → ((a ≡ side) × (m ≡ name) × (ch ≡ new)) ⊎ (lookup m (table a h) ≡ some ch)
  lookup-set_table sending sending name m new ch h l =
      ground (arith, lookup-insert name m new h.send_chans, bytes_eq_iff name m)
  lookup-set_table receiving receiving name m new ch h l =
      ground (arith, lookup-insert name m new h.receive_chans, bytes_eq_iff name m)
  lookup-set_table sending receiving name m new ch h l = inr l
  lookup-set_table receiving sending name m new ch h l = inr l

  chans-set_table :
      (side : Side) (l : List (Bytes × ℕ)) (h : Hub X C) → (set_table side l h).chans ≡ h.chans
  chans-set_table sending l h = refl
  chans-set_table receiving l h = refl

  IsDistinct-insert :
      (side : Side) (name : Bytes) (h : Hub X C) (new : ℕ)
      → IsDistinct h
      → ((a : Side) (m : Bytes) (ch : ℕ) → lookup m (table a h) ≡ some ch → ch < new)
      → new < h.chans
      → IsDistinct (set_table side (insert name new (table side h)) h)
  IsDistinct-insert side name h new d newer room = record {
    old = λ a m ch l.
        rw (chans-set_table side (insert name new (table side h)) h)
          (elim (lookup-set_table side a name m new ch h l) [
            | inl (_, _, e) ↦ omega arith
            | inr l' ↦ d.old a m ch l'
          ]);
    apart = λ a b m n ch l r. elim (lookup-set_table side a name m new ch h l) [
      | inl (p, q, e) ↦ elim (lookup-set_table side b name n new ch h r) [
        | inl (p', q', _) ↦ (p ∙ sym p', q ∙ sym q')
        | inr r' ↦ absurd (omega (arith, newer b n ch r'))
      ]
      | inr l' ↦ elim (lookup-set_table side b name n new ch h r) [
        | inl (_, _, e) ↦ absurd (omega (arith, newer a m ch l'))
        | inr r' ↦ d.apart a b m n ch l' r'
      ]
    ];
  }

  -- `Send` and `Receive` keep the channels of all names and of both directions apart, whether they
  -- find a channel, make one or fail.
  pub obtain-IsDistinct :
      (side : Side) (make : Bytes → Hub X C → Made X C) (name : Bytes) (h t : Hub X C) (ch : ℕ)
      → IsMaker make
      → IsDistinct h
      → obtain side make name h ≡ some (t, ch)
      → IsDistinct t
  obtain-IsDistinct side make name h t ch maker d o = keep (obtain-Obtained side make name h t ch o)
    where
      keep : Obtained side make name h t ch → IsDistinct t
      keep (found l e) = rw e d
      keep (created h' l m e) =
          let k = maker.keeps name h h' ch m in
          let (fresh, room) = maker.is_new name h h' ch m in
          rw e (
            IsDistinct-insert side name h' ch
              (IsDistinct-tables h h' (λ a. table-Keeps a h h' k) k.chans_grow d)
              (λ a n c l.
                omega (arith, d.old a n c (ap (lookup n) (sym (table-Keeps a h h' k)) ∙ l)))
              room)
      keep (broken h' c l m f) =
          let k = maker.keeps_failed name h h' c m in
          let grow = (fail_fields name c h' t ch f).5 in
          IsDistinct-tables h t (λ a. table-fail a name c h' t ch f ∙ table-Keeps a h h' k)
            (omega (arith, grow, k.chans_grow)) d

tables-eq :
    {X C : Type 0} (a : Side) (h t : Hub X C)
    → t.send_chans ≡ h.send_chans
    → t.receive_chans ≡ h.receive_chans
    → table a t ≡ table a h
tables-eq sending h t s v = s
tables-eq receiving h t s v = v

-- A new transport has no channel.
pub empty-IsDistinct :
    {X C : Type 0} (h : Hub X C) → h.send_chans ≡ [] → h.receive_chans ≡ [] → IsDistinct h
empty-IsDistinct h no_send no_receive = record {
  old = λ a m ch l. absurd (nothing a m ch l);
  apart = λ a b m n ch l r. absurd (nothing a m ch l);
}
  where
    nothing : (a : Side) (m : Bytes) (ch : ℕ) → lookup m (table a h) ≡ some ch → ⊥
    nothing sending m ch l = cc (ap (lookup m) no_send, l)
    nothing receiving m ch l = cc (ap (lookup m) no_receive, l)

-- What happens to a transport: calls of `Send` and `Receive`, and all else, which leaves the maps
-- alone and takes back no channel.
pub data Reach {X C : Type 0} (make : Side → Bytes → Hub X C → Made X C) (start : Hub X C)
    : Hub X C → Type 0 where
  begin : Reach make start start
  call :
      {h t : Hub X C}
      → Reach make start h
      → (side : Side) (name : Bytes) (ch : ℕ) → obtain side (make side) name h ≡ some (t, ch)
      → Reach make start t
  other :
      {h t : Hub X C}
      → Reach make start h
      → t.send_chans ≡ h.send_chans
      → t.receive_chans ≡ h.receive_chans
      → t.chans ≡ h.chans
      → Reach make start t

-- However a transport that starts with no channels is used, its channels stay apart: a channel
-- under two names, or under one name for sending and for receiving, never comes up.
pub Reach-IsDistinct :
    {X C : Type 0} (make : Side → Bytes → Hub X C → Made X C) {start h : Hub X C}
    → ((side : Side) → IsMaker (make side))
    → start.send_chans ≡ []
    → start.receive_chans ≡ []
    → Reach make start h
    → IsDistinct h
Reach-IsDistinct make {start} maker ns nr begin = empty-IsDistinct start ns nr
Reach-IsDistinct make maker ns nr (call {h} {t} r side name ch o) =
    obtain-IsDistinct side (make side) name h t ch (maker side)
      (Reach-IsDistinct make maker ns nr r) o
Reach-IsDistinct make maker ns nr (other {h} {t} r s v c) =
    IsDistinct-tables h t (λ a. tables-eq a h t s v) (omega arith)
      (Reach-IsDistinct make maker ns nr r)
