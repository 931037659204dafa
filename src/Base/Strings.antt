-- ===== src/Base/Strings.antt =====
-- Go's `string` and `[]byte`, both as the sequence of their bytes.
use Prim.Native.Nat.{ℕ}
use Prim.Native.Char.{code}
use Prim.Native.String.{String}
use mathlib.Core.Path.{◌≡◌}
use mathlib.Core.Logic.{◌↔◌, ◌≢◌}
use mathlib.Core.Bool.{Bool, true, false, ◌&&◌}
use mathlib.Core.List.{List, [], ◌∷◌, ◌++◌}
use native.Mathlib.Omega.{arith}
use vice.Base.Tests.{◌==◌}
use vice.Base.Lists.{All}

abbrev pub Bytes : Type 0
Bytes = List ℕ

-- The bytes of an ASCII literal.
abbrev pub codes : String → Bytes
codes String.[] = []
codes (String.◌∷◌ c s) = code c ∷ codes s

abbrev pub bytes_eq : Bytes → Bytes → Bool
bytes_eq [] [] = true
bytes_eq (x ∷ xs) (y ∷ ys) = (x == y) && bytes_eq xs ys
bytes_eq _ _ = false

pub bytes_eq_iff : (xs ys : Bytes) → (bytes_eq xs ys ≡ true) ↔ (xs ≡ ys)
bytes_eq_iff [] [] = ground arith
bytes_eq_iff [] (y ∷ ys) = ground arith
bytes_eq_iff (x ∷ xs) [] = ground arith
bytes_eq_iff (x ∷ xs) (y ∷ ys) = ground (arith, bytes_eq_iff xs ys)

-- A text in which a byte does not occur.
abbrev pub Lacks : ℕ → Bytes → Type 0
Lacks sep = All (λ c. c ≢ sep)

-- The first occurrence of a byte splits a text in one way.
pub eq_at_sep :
    (sep : ℕ) (a b s t : Bytes)
    → Lacks sep a
    → Lacks sep b
    → a ++ (sep ∷ s) ≡ b ++ (sep ∷ t)
    → (a ≡ b) × (s ≡ t)
eq_at_sep sep [] [] s t ha hb e = ground arith
eq_at_sep sep [] (d ∷ b) s t ha hb e = absurd (ground arith)
eq_at_sep sep (c ∷ a) [] s t ha hb e = absurd (ground arith)
eq_at_sep sep (c ∷ a) (d ∷ b) s t ha hb e = ground (arith, eq_at_sep sep a b s t ha.1 hb.1)

pub append_left_cancel : (a s t : Bytes) → a ++ s ≡ a ++ t → s ≡ t
append_left_cancel [] s t e = e
append_left_cancel (c ∷ a) s t e = append_left_cancel a s t (ground arith)

pub append_right_cancel : (s t : Bytes) (c : ℕ) → s ++ (c ∷ []) ≡ t ++ (c ∷ []) → s ≡ t
append_right_cancel [] [] c e = ground arith
append_right_cancel [] (y ∷ []) c e = absurd (ground arith)
append_right_cancel [] (y ∷ z ∷ t) c e = absurd (ground arith)
append_right_cancel (x ∷ []) [] c e = absurd (ground arith)
append_right_cancel (x ∷ z ∷ s) [] c e = absurd (ground arith)
append_right_cancel (x ∷ s) (y ∷ t) c e = ground (arith, append_right_cancel s t c)
