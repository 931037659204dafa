-- ===== src/Sqs/Region.antt =====
-- queues/sqs/sqs.go, `RegionFromURL`, over `strings.Split` with a separator of one byte.
use vice.Base.{
  ℕ, ◌≡◌, refl, ap, ◌∙◌, List, [], ◌∷◌, ◌++◌, Bytes, arith, All, Lacks, length, ltb, ◌==◌,
  if◌then◌else◌, ==_iff, inl, inr, Bool-cases,
}

-- `strings.Split`: the first piece, and the pieces after the separators.
pub split_from : ℕ → Bytes → Bytes × List Bytes
split_from sep [] = ([], [])
split_from sep (c ∷ s) =
    let (piece, pieces) = split_from sep s in
    if c == sep then ([], piece ∷ pieces) else (c ∷ piece, pieces)

unfoldable pub split : ℕ → Bytes → List Bytes
unfolding split_from
split sep s = let (piece, pieces) = split_from sep s in piece ∷ pieces

abbrev second : List Bytes → Bytes
second (a ∷ b ∷ rest) = b
second _ = []

unfoldable pub region_from_url : Bytes → Bytes
unfolding split
region_from_url url =
    let pieces = split b'.' url in if ltb 2 (length pieces) then second pieces else []

split_from-piece :
    (sep : ℕ) (a s : Bytes) → Lacks sep a → split_from sep (a ++ (sep ∷ s)) ≡ (a, split sep s)
unfolding split
split_from-piece sep [] s h = ground arith
split_from-piece sep (c ∷ a) s h = ground (arith, split_from-piece sep a s h.1)

pub join : ℕ → Bytes → List Bytes → Bytes
join sep piece [] = piece
join sep piece (p ∷ ps) = piece ++ (sep ∷ join sep p ps)

join-cons :
    (sep c : ℕ) (piece : Bytes) (ps : List Bytes) → join sep (c ∷ piece) ps ≡ c ∷ join sep piece ps
unfolding join
join-cons sep c piece [] = refl
join-cons sep c piece (p ∷ ps) = refl

-- The pieces joined again are the text, and no piece holds the separator.
pub join-split :
    (sep : ℕ) (s : Bytes)
    → (join sep (split_from sep s).0 (split_from sep s).1 ≡ s)
      × Lacks sep (split_from sep s).0
      × All (Lacks sep) (split_from sep s).1
unfolding split_from join
join-split sep [] = (refl, tt, tt)
join-split sep (c ∷ s) =
    let (joined, first, others) = join-split sep s in
    elim (Bool-cases (c == sep)) [
      | inl at_sep ↦ rw at_sep (cc (joined, (==_iff c sep).0 at_sep), tt, (first, others))
      | inr inside ↦ rw inside (
        join-cons sep c _ _ ∙ ap (◌∷◌ c) joined,
        ((λ e. cc (inside, (==_iff c sep).1 e)), first),
        others,
      )
    ]

-- The region of a URL is what stands between its first two dots.
pub region_between_dots :
    (host region rest : Bytes)
    → Lacks b'.' host
    → Lacks b'.' region
    → region_from_url (host ++ (b'.' ∷ (region ++ (b'.' ∷ rest)))) ≡ region
unfolding region_from_url
region_between_dots host region rest h r = ground (
  arith,
  split_from-piece b'.' host (region ++ (b'.' ∷ rest)) h,
  split_from-piece b'.' region rest r,
)

split_from-Lacks : (sep : ℕ) (a : Bytes) → Lacks sep a → split_from sep a ≡ (a, [])
unfolding split_from
split_from-Lacks sep [] h = refl
split_from-Lacks sep (c ∷ a) h = ground (arith, split_from-Lacks sep a h.1)

-- A URL with one dot or none has no region.
pub region_absent :
    (host rest : Bytes)
    → Lacks b'.' host
    → Lacks b'.' rest
    → (region_from_url host ≡ []) × (region_from_url (host ++ (b'.' ∷ rest)) ≡ [])
unfolding region_from_url
region_absent host rest h r = (
  ground (arith, split_from-Lacks b'.' host h),
  ground (arith, split_from-piece b'.' host rest h, split_from-Lacks b'.' rest r),
)
