-- ===== src/Transport/Text.antt =====
-- transport.go: what the text of an error says.
use vice.Base.{
  ◌≡◌, refl, ap, sym, suc, ◌∙◌, lt→ltb, [], ◌∷◌, ◌++◌, Bytes, codes, arith, Lacks, eq_at_sep,
  append_left_cancel, append_right_cancel, length,
}
use vice.Transport.{Err, error_text}

-- What follows the name in a text.
abbrev tail_text : Bytes → Bytes
tail_text [] = []
tail_text (c ∷ m) = codes " <- `" ++ ((c ∷ m) ++ codes "`")

tail_text-injective : (m n : Bytes) → tail_text m ≡ tail_text n → m ≡ n
tail_text-injective [] [] e = refl
tail_text-injective [] (c ∷ n) e = absurd (ground arith)
tail_text-injective (c ∷ m) [] e = absurd (ground arith)
tail_text-injective (c ∷ m) (d ∷ n) e =
    append_right_cancel (c ∷ m) (d ∷ n) b'`' (append_left_cancel (codes " <- `") _ _ e)

module _ {E : Type 0} (text : E → Bytes) where
  error_text-parts :
      (name message : Bytes) (e : E)
      → error_text text (record { message = message; name = name; err = e })
        ≡ text e ++ (codes ": |" ++ (name ++ (b'|' ∷ tail_text message)))
  unfolding error_text
  error_text-parts name [] e = refl
  error_text-parts name (c ∷ m) e = rw (lt→ltb 0 (suc (length m)) (omega arith))

  -- The text of an error tells what failed: of two errors with the same cause and with names that
  -- have no `|`, equal texts come from equal names and equal messages.
  pub error_text-injective :
      (e f : Err E)
      → Lacks b'|' e.name
      → Lacks b'|' f.name
      → e.err ≡ f.err
      → error_text text e ≡ error_text text f
      → (e.name ≡ f.name) × (e.message ≡ f.message)
  error_text-injective e f he hf same eq =
      let parts =
        sym (error_text-parts e.name e.message e.err)
        ∙ eq
        ∙ error_text-parts f.name f.message f.err
        ∙ ap (λ c. text c ++ (codes ": |" ++ (f.name ++ (b'|' ∷ tail_text f.message))))
            (sym same) in
      let rest = append_left_cancel (codes ": |") _ _ (append_left_cancel (text e.err) _ _ parts) in
      let (names, tails) = eq_at_sep b'|' e.name f.name _ _ he hf rest in
      (names, tail_text-injective e.message f.message tails)
