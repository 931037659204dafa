-- ===== src/Fake/Copied.antt =====
-- queues/sqs/sqsfakes/fake_sqsapi.go, `Invocations`: the copy of the map has the same entries.
use vice.Base.{
  ◌≡◌, refl, subst, ◌∙◌, inl, inr, List, [], ◌∷◌, ◌++◌, Option, none, some, Bytes, bytes_eq,
  bytes_eq_iff, arith, lookup, insert, lookup-insert, Bool-cases,
}
use vice.Fake.{
  Types, Any, Invocations, FakeSqsApi, recorded, record_invocation, copied, all_invocations,
}

module _ {T : Types} where
  -- No key occurs twice.
  abbrev pub NoRepeat : Invocations T → Type 0
  NoRepeat [] = Unit
  NoRepeat ((j, v) ∷ m) = (lookup j m ≡ none) × NoRepeat m

  abbrev either :
      Option (List (List (Any T))) → Option (List (List (Any T))) → Option (List (List (Any T)))
  either none later = later
  either (some v) later = some v

  insert-NoRepeat :
      (k : Bytes) (v : List (List (Any T))) (m : Invocations T)
      → NoRepeat m
      → NoRepeat (insert k v m)
  insert-NoRepeat k v [] n = (refl, tt)
  insert-NoRepeat k v ((j, w) ∷ m) n = elim (Bool-cases (bytes_eq j k)) [
    | inl same ↦ rw same (subst (λ i. lookup i m ≡ none) ((bytes_eq_iff j k).0 same) n.0, n.1)
    | inr other ↦ rw other (
      ground (arith, lookup-insert k j v m, bytes_eq_iff k j, bytes_eq_iff j k, other, n.0),
      insert-NoRepeat k v m n.1,
    )
  ]

  lookup-copied :
      (k : Bytes) (m into : Invocations T)
      → NoRepeat m
      → lookup k (copied m into) ≡ either (lookup k m) (lookup k into)
  unfolding copied
  lookup-copied k [] into n = refl
  lookup-copied k ((j, v) ∷ m) into n =
      lookup-copied k m (insert j v into) n.1 ∙ elim (Bool-cases (bytes_eq j k)) [
        | inl same ↦
            let gone : lookup k m ≡ none =
              subst (λ i. lookup i m ≡ none) ((bytes_eq_iff j k).0 same) n.0 in
            ground (arith, lookup-insert j k v into, same, gone)
        | inr other ↦ ground (arith, lookup-insert j k v into, other)
      ]

  pub record_invocation-NoRepeat :
      (key : Bytes) (args : List (Any T)) (f : FakeSqsApi T)
      → NoRepeat f.invocations
      → NoRepeat (record_invocation key args f).invocations
  unfolding record_invocation
  record_invocation-NoRepeat key args f n =
      insert-NoRepeat key (recorded key f.invocations ++ (args ∷ [])) f.invocations n

  either-none : (o : Option (List (List (Any T)))) → either o none ≡ o
  either-none none = refl
  either-none (some v) = refl

  pub all_invocations-same :
      (key : Bytes) (f : FakeSqsApi T)
      → NoRepeat f.invocations
      → lookup key (all_invocations f) ≡ lookup key f.invocations
  unfolding all_invocations
  all_invocations-same key f n = lookup-copied key f.invocations [] n ∙ either-none _
