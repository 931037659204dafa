-- ===== src/Multi/Makers.antt =====
-- queues/sqs/multi_writer.go: `newWriterGroup` as `makePublishers` calls it, and the makers.
use vice.Base.{
  ℕ, zero, suc, ◌+◌, ◌≤◌, ◌<◌, ◌≡◌, refl, ap, subst, ◌⊎◌, inl, inr, List, [], ◌∷◌, ◌++◌, Bytes,
  arith,
}
use vice.Hub.{new_chan, Answer, gives, refuses, made, not_made, IsMaker, Keeps}
use vice.Sqs.Service.{Service, Cause}
use vice.Sqs.Region.{region_from_url}
use vice.Sqs.Transport.{NewService, no_service, new_service}
use vice.Multi.Batching.{new_batcher}
use vice.Multi.Group.{new_group}
use vice.Multi.Wiring.{Line}
use vice.Multi.{MultiHub, make_services, make_subscriber, make_publishers}

pub NewService-cases :
    {E : Type 0} (s : NewService E)
    → ((e : E) × (s ≡ no_service e)) ⊎ ((svc : Service E) × (s ≡ new_service svc))
NewService-cases (no_service e) = inl (e, refl)
NewService-cases (new_service svc) = inr (svc, refl)

Answer-cases :
    {A C : Type 0} (a : Answer A C) → ((x : A) × (a ≡ gives x)) ⊎ ((e : C) × (a ≡ refuses e))
Answer-cases (gives x) = inl (x, refl)
Answer-cases (refuses e) = inr (e, refl)

module _ {E : Type 0} (create : ℕ → Bytes → NewService E) where
  -- The services for a region, from call number `i` of `NewService` on.
  abbrev pub Services : Bytes → ℕ → ℕ → List (Service E) → Type 0
  Services region i zero [] = Unit
  Services region i zero (svc ∷ svcs) = ⊥
  Services region i (suc n) [] = ⊥
  Services region i (suc n) (svc ∷ svcs) =
      (create i region ≡ new_service svc) × Services region (i + 1) n svcs

  -- All calls succeed, and there is a service for each writer; or a call fails, before which all
  -- succeed, and after which none is made. Nothing but the count of the calls changes.
  abbrev pub ServicesCase :
      Bytes → ℕ → MultiHub E → MultiHub E × Answer (List (Service E)) E → Type 0
  ServicesCase region n h r =
      ((svcs : List (Service E)) × (r
          ≡ (record h { own = record h.own { services = h.own.services + n } }, gives svcs))
        × Services region h.own.services n svcs)
      ⊎ ((k : ℕ) × (e : E) × (svcs : List (Service E)) × (r
            ≡ (record h { own = record h.own { services = h.own.services + k + 1 } }, refuses e))
          × (k < n)
          × Services region h.own.services k svcs
          × (create (h.own.services + k) region ≡ no_service e))

  abbrev counted_by : ℕ → MultiHub E → MultiHub E
  counted_by n h = record h { own = record h.own { services = n } }

  -- `newWriterGroup` asks for one service per writer, in order: either every call succeeds, and there
  -- is a service for each writer; or it stops at the first call that fails and returns its error.
  -- In both cases only the count of the calls changes.
  pub make_services-cases :
      (n : ℕ) (region : Bytes) (h : MultiHub E)
      → ServicesCase region n h (make_services create n region h)
  unfolding make_services
  make_services-cases zero region h =
      inl ([], ap (λ (k : ℕ). (counted_by k h, gives [])) (omega arith), tt)
  make_services-cases (suc n) region h =
      let u : MultiHub E = record h { own = record h.own { services = h.own.services + 1 } } in
      elim (NewService-cases (create h.own.services region)) [
        | inl (e, down) ↦ inr (
          0,
          e,
          [],
          rw (down, make_services) (ap (λ (k : ℕ). (counted_by k h, refuses e)) (omega arith)),
          omega arith,
          tt,
          subst (λ k. create k region ≡ no_service e) (omega arith) down,
        )
        | inr (svc, up) ↦ elim (make_services-cases n region u) [
          | inl (svcs, same, all) ↦ inl (
            svc ∷ svcs,
            rw (up, make_services)
                (rw (ap (λ r. r.1) same, ap (λ r. r.0) same)
                  (ap (λ (k : ℕ). (counted_by k h, gives (svc ∷ svcs))) (omega arith))),
            (up, all),
          )
          | inr (k, e, svcs, same, low, all, down) ↦ inr (
            suc k,
            e,
            svc ∷ svcs,
            rw (up, make_services)
                (rw (ap (λ r. r.1) same, ap (λ r. r.0) same)
                  (ap (λ (k : ℕ). (counted_by k h, refuses e)) (omega arith))),
            omega arith,
            (up, all),
            subst (λ k. create k region ≡ no_service e) (omega arith) down,
          )
        ]
      ]

  pub make_services-kept :
      (n : ℕ) (region : Bytes) (h : MultiHub E)
      → (k : ℕ) × ((make_services create n region h).0 ≡ counted_by k h)
  make_services-kept n region h = elim (make_services-cases n region h) [
    | inl (svcs, same, all) ↦ (h.own.services + n, ap (λ r. r.0) same)
    | inr (k, e, svcs, same, low, all, down) ↦ (h.own.services + k + 1, ap (λ r. r.0) same)
  ]

  -- `makePublishers` appends a line whose batcher and writers are as their goroutines start.
  pub publishers-made :
      (name : Bytes) (h t : MultiHub E) (ch : ℕ)
      → make_publishers create name h ≡ made t ch
      → (k : ℕ) × (svcs : List (Service E)) × let u : MultiHub E = counted_by k h in
          let line : Line E = record {
            name = name;
            chan = h.chans;
            batcher = new_batcher h.own.stop_pub_chan;
            group = new_group svcs h.own.stopchan;
          } in
          (ch ≡ h.chans)
          × (t ≡ record u {
            chans = h.chans + 1;
            own = record u.own { lines = h.own.lines ++ (line ∷ []) };
          })
  unfolding make_publishers new_chan
  publishers-made name h t ch m =
      let (k, same) = make_services-kept h.own.writers (region_from_url name) h in
      elim (Answer-cases (make_services create h.own.writers (region_from_url name) h).1) [
        | inl (svcs, up) ↦ (k, svcs, (ground (arith, m, up, same), ground (arith, m, up, same)))
        | inr (e, down) ↦ absurd (ground (arith, m, down))
      ]

  pub publishers-failed :
      (name : Bytes) (h t : MultiHub E) (e : Cause E)
      → make_publishers create name h ≡ not_made t e
      → (k : ℕ) × (t ≡ counted_by k h)
  unfolding make_publishers
  publishers-failed name h t e m =
      let (k, same) = make_services-kept h.own.writers (region_from_url name) h in
      (k, ground (arith, m, same))

  publishers-Keeps :
      (name : Bytes) (h h' : MultiHub E) (ch : ℕ)
      → make_publishers create name h ≡ made h' ch
      → Keeps h h' × (h.chans ≤ ch) × (ch < h'.chans)
  publishers-Keeps name h h' ch e =
      let (k, svcs, (here, same)) = publishers-made name h h' ch e in ground (arith, here, same)

  publishers-Keeps_failed :
      (name : Bytes) (h h' : MultiHub E) (c : Cause E)
      → make_publishers create name h ≡ not_made h' c
      → Keeps h h'
  publishers-Keeps_failed name h h' c e =
      let (k, same) = publishers-failed name h h' c e in ground (arith, same)

  pub make_publishers-IsMaker : IsMaker (make_publishers create)
  make_publishers-IsMaker = record {
    keeps = λ name h h' ch e. (publishers-Keeps name h h' ch e).0;
    is_new = λ name h h' ch e. let (_, low, high) = publishers-Keeps name h h' ch e in (low, high);
    keeps_failed = publishers-Keeps_failed;
  }

  subscriber-Keeps :
      (name : Bytes) (h h' : MultiHub E) (ch : ℕ)
      → make_subscriber create name h ≡ made h' ch
      → Keeps h h' × (h.chans ≤ ch) × (ch < h'.chans)
  unfolding make_subscriber new_chan
  subscriber-Keeps name h h' ch e = ground arith

  subscriber-Keeps_failed :
      (name : Bytes) (h h' : MultiHub E) (c : Cause E)
      → make_subscriber create name h ≡ not_made h' c
      → Keeps h h'
  unfolding make_subscriber
  subscriber-Keeps_failed name h h' c e = ground arith

  pub make_subscriber-IsMaker : IsMaker (make_subscriber create)
  make_subscriber-IsMaker = record {
    keeps = λ name h h' ch e. (subscriber-Keeps name h h' ch e).0;
    is_new = λ name h h' ch e. let (_, low, high) = subscriber-Keeps name h h' ch e in (low, high);
    keeps_failed = subscriber-Keeps_failed;
  }

  abbrev pub SameWriters : MultiHub E → MultiHub E → Type 0
  SameWriters h t =
      (t.own.batch_size ≡ h.own.batch_size)
      × (t.own.stop_pub_chan ≡ h.own.stop_pub_chan)
      × (t.own.waited ≡ h.own.waited)
      × (t.own.stopchan ≡ h.own.stopchan)
      × (t.own.lines ≡ h.own.lines)

  pub subscriber-fields :
      (name : Bytes) (h t : MultiHub E) (ch : ℕ)
      → make_subscriber create name h ≡ made t ch
      → SameWriters h t
  unfolding make_subscriber new_chan
  subscriber-fields name h t ch m =
      (ground arith, ground arith, ground arith, ground arith, ground arith)

  pub no_subscriber-fields :
      (name : Bytes) (h t : MultiHub E) (e : Cause E)
      → make_subscriber create name h ≡ not_made t e
      → SameWriters h t
  unfolding make_subscriber
  no_subscriber-fields name h t e m =
      (ground arith, ground arith, ground arith, ground arith, ground arith)

  pub publishers_failed-fields :
      (name : Bytes) (h t : MultiHub E) (e : Cause E)
      → make_publishers create name h ≡ not_made t e
      → SameWriters h t
  publishers_failed-fields name h t e m =
      let (k, same) = publishers-failed name h t e m in
      (
        ground (arith, same),
        ground (arith, same),
        ground (arith, same),
        ground (arith, same),
        ground (arith, same),
      )
