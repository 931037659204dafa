-- ===== src/Hub/Owning.antt =====
-- The part of a transport's state that `Send` and `Receive` leave to its makers.
use vice.Base.{ℕ, ◌≡◌, refl, ◌⊎◌, inl, inr, none, some, Bytes, arith, Option-cases, lookup}
use vice.Hub.Defs.{
  Hub, Side, sending, receiving, Made, made, not_made, table, obtain, fail, send_err, new_chan,
}

module _ {X C : Type 0} where
  Made-cases :
      (m : Made X C)
      → ((h : Hub X C) × (c : ℕ) × (m ≡ made h c)) ⊎ ((h : Hub X C) × (e : C) × (m ≡ not_made h e))
  Made-cases (made h c) = inl (h, c, refl)
  Made-cases (not_made h e) = inr (h, e, refl)

  made_case :
      (side : Side) (make : Bytes → Hub X C → Made X C) (name : Bytes) (h h' t : Hub X C) (c ch : ℕ)
      → lookup name (table side h) ≡ none
      → make name h ≡ made h' c
      → obtain side make name h ≡ some (t, ch)
      → t.own ≡ h'.own
  unfolding obtain
  made_case sending make name h h' t c ch absent m e = ground arith
  made_case receiving make name h h' t c ch absent m e = ground arith

  -- What `Send` and `Receive` keep besides is what there was, or what the maker left.
  pub obtain-own :
      (side : Side) (make : Bytes → Hub X C → Made X C) (name : Bytes) (h t : Hub X C) (ch : ℕ)
      → obtain side make name h ≡ some (t, ch)
      → (t.own ≡ h.own)
        ⊎ (((h' : Hub X C) × (c : ℕ) × (make name h ≡ made h' c) × (t.own ≡ h'.own))
            ⊎ ((h' : Hub X C) × (e : C) × (make name h ≡ not_made h' e) × (t.own ≡ h'.own)))
  unfolding obtain fail send_err new_chan
  obtain-own side make name h t ch e = elim (Option-cases (lookup name (table side h))) [
    | inl absent ↦ elim (Made-cases (make name h)) [
      | inl (h', c, m) ↦ inr (inl (h', c, m, made_case side make name h h' t c ch absent m e))
      | inr (h', c, m) ↦ inr (inr (h', c, m, ground (arith, absent, m, e)))
    ]
    | inr (c, present) ↦ inl (ground (arith, present, e))
  ]
