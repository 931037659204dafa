-- ===== src/Hub/Caching.antt =====
-- `Send` and `Receive`: a name has one channel, which is made once.
use vice.Base.{
  ℕ, ◌+◌, ◌<◌, [], ◌∷◌, ◌++◌, length, ◌≡◌, refl, ap, ◌∙◌, ◌⊎◌, inl, inr, Bytes, List, none, some,
  arith, lookup, insert, lookup-insert, bytes_eq_iff, Option-cases, if◌then◌else◌,
}
use vice.Hub.Defs.{
  Hub, Keeps, IsMaker, err_chan_size, Side, sending, receiving, table, set_table, Made, made,
  not_made, fail, obtain,
}

pub lookup-insert_self :
    (name : Bytes) (ch : ℕ) (m : List (Bytes × ℕ)) → lookup name (insert name ch m) ≡ some ch
lookup-insert_self name ch m =
    lookup-insert name name ch m
    ∙ ap (λ b. if b then some ch else lookup name m) ((bytes_eq_iff name name).1 refl)

pub table-set_table :
    {X C : Type 0} (side : Side) (m : List (Bytes × ℕ)) (h : Hub X C)
    → table side (set_table side m h) ≡ m
table-set_table sending m h = refl
table-set_table receiving m h = refl

module _ {X C : Type 0} (side : Side) (make : Bytes → Hub X C → Made X C) where
  -- The three ways in which a call returns: the map has the channel, it is made, or that fails.
  pub data Obtained (name : Bytes) (h : Hub X C) (t : Hub X C) (ch : ℕ) : Type 0 where
    found : lookup name (table side h) ≡ some ch → t ≡ h → Obtained name h t ch
    created :
        (h' : Hub X C)
        → lookup name (table side h) ≡ none
        → make name h ≡ made h' ch
        → t ≡ set_table side (insert name ch (table side h')) h'
        → Obtained name h t ch
    broken :
        (h' : Hub X C) (c : C)
        → lookup name (table side h) ≡ none
        → make name h ≡ not_made h' c
        → fail name c h' ≡ some (t, ch)
        → Obtained name h t ch

  unmapped :
      (name : Bytes) (h t : Hub X C) (ch : ℕ) (m : Made X C)
      → make name h ≡ m
      → lookup name (table side h) ≡ none
      → obtain side make name h ≡ some (t, ch)
      → Obtained name h t ch
  unfolding obtain
  unmapped name h t ch (made h' d) e l o = created h' l (ground arith) (ground arith)
  unmapped name h t ch (not_made h' c) e l o = broken h' c l e (ground arith)

  pub obtain-Obtained :
      (name : Bytes) (h t : Hub X C) (ch : ℕ)
      → obtain side make name h ≡ some (t, ch)
      → Obtained name h t ch
  unfolding obtain
  obtain-Obtained name h t ch o = elim (Option-cases (lookup name (table side h))) [
    | inl l ↦ unmapped name h t ch (make name h) refl l o
    | inr (d, l) ↦ found (ground arith) (ground arith)
  ]

  found_again :
      (name : Bytes) (t : Hub X C) (ch : ℕ)
      → lookup name (table side t) ≡ some ch
      → obtain side make name t ≡ some (t, ch)
  unfolding obtain
  found_again name t ch l = rw (l, obtain)

-- What a failed call does: the error goes to the end of the error channel, which had room for it,
-- and the channel that it returns is a new one.
pub fail_fields :
    {X C : Type 0} (name : Bytes) (c : C) (h t : Hub X C) (ch : ℕ)
    → fail name c h ≡ some (t, ch)
    → (t.err_chan ≡ h.err_chan ++ (record { message = []; name = name; err = c } ∷ []))
      × (length h.err_chan < err_chan_size)
      × (t.send_chans ≡ h.send_chans)
      × (t.receive_chans ≡ h.receive_chans)
      × (ch ≡ h.chans)
      × (t.chans ≡ h.chans + 1)
unfolding fail
fail_fields name c h t ch e =
    (ground arith, ground arith, ground arith, ground arith, ground arith, ground arith)

pub table-fail :
    {X C : Type 0} (side : Side) (name : Bytes) (c : C) (h t : Hub X C) (ch : ℕ)
    → fail name c h ≡ some (t, ch)
    → table side t ≡ table side h
table-fail sending name c h t ch e = (fail_fields name c h t ch e).2
table-fail receiving name c h t ch e = (fail_fields name c h t ch e).3

pub table-Keeps :
    {X C : Type 0} (side : Side) (h h' : Hub X C) → Keeps h h' → table side h' ≡ table side h
table-Keeps sending h h' k = k.send_kept
table-Keeps receiving h h' k = k.receive_kept

module _ {X C : Type 0} (side : Side) (make : Bytes → Hub X C → Made X C)
    (maker : IsMaker make) where
  -- A call of `Send` or `Receive` that returns has either put its channel into the map, and then
  -- another call under the name returns the same channel and changes nothing; or it has failed,
  -- and then the map still has no channel for the name, and one error under the name has been added
  -- to the error channel.
  pub obtain_again :
      (name : Bytes) (h t : Hub X C) (ch : ℕ)
      → obtain side make name h ≡ some (t, ch)
      → (obtain side make name t ≡ some (t, ch))
        ⊎ ((lookup name (table side t) ≡ none)
            × ((c : C) × (t.err_chan
                  ≡ h.err_chan ++ (record { message = []; name = name; err = c } ∷ []))))
  obtain_again name h t ch o = again (obtain-Obtained side make name h t ch o)
    where
      again :
          Obtained side make name h t ch
          → (obtain side make name t ≡ some (t, ch))
            ⊎ ((lookup name (table side t) ≡ none)
                × ((c : C) × (t.err_chan
                      ≡ h.err_chan ++ (record { message = []; name = name; err = c } ∷ []))))
      again (found l e) =
          inl (found_again side make name t ch (ap (λ u. lookup name (table side u)) e ∙ l))
      again (created h' l m e) = inl (
          found_again side make name t ch (
            ap (λ u. lookup name (table side u)) e
            ∙ ap (lookup name) (table-set_table side _ h')
            ∙ lookup-insert_self name ch _))
      again (broken h' c l m f) =
          let k = maker.keeps_failed name h h' c m in
          inr (
            ap (lookup name) (table-fail side name c h' t ch f ∙ table-Keeps side h h' k) ∙ l,
            (
              c,
              (fail_fields name c h' t ch f).0
                  ∙ ap (λ l. l ++ (record { message = []; name = name; err = c } ∷ [])) k.errs_kept,
            ),
          )
