-- ===== src/Nsq/Stopping.antt =====
-- queues/nsq/nsq.go: whole runs of a transport, from `New` through `Stop`.
use vice.Base.{
  ℕ, suc, ◌≤◌, ◌<◌, ◌≡◌, refl, subst, ◌∙◌, inl, inr, Bool, true, false, List, [], ◌∷◌, ◌++◌, Option,
  some, Bytes, arith, length, All, Bool-cases, ◌>>=◌, >>=-eq-some, length-append, ltb,
}
use mathlib.Core.Option.{some-injective}
use vice.Nsq.Producing.{Event}
use vice.Nsq.Makers.{SameStop, receive-fields, send-fields}
use vice.Nsq.Progress.{
  Runs, Progress, Progress-append, stop_at-Progress, stop_at-length, closed_at-Progress,
  close_at-Progress, close_at-length,
}
use vice.Nsq.{
  Library, Consumer, StopPhase, running, waiting, stopping, stopped, NsqHub, new, receive, send,
  all_exited, close_at, closed_at, stop_begins, next_consumer, wait_ends, stop_seen, consumer_stops,
  worker_at, producer_event,
}

-- What happens to a transport, one call or one event at a time.
pub data Action (C : Type 0) : Type 0 where
  sends : Bytes → Action C
  receives : Bytes → Action C
  produces : ℕ → Event C → Action C
  stop_start : Action C
  wait_end : Action C
  seen : Action C
  stops : (consumer : ℕ) → Action C

module _ {C : Type 0} (lib : Library C) (fuel : ℕ) where
  unfoldable pub act : Action C → NsqHub C → Option (NsqHub C)
  act (sends name) h = send lib name h >>= λ r. some r.0
  act (receives name) h = receive lib fuel name h >>= λ r. some r.0
  act (produces i e) h = producer_event i e h
  act stop_start h = stop_begins h
  act wait_end h = wait_ends h
  act seen h = stop_seen h
  act (stops i) h = consumer_stops i h

  unfoldable pub acts : List (Action C) → NsqHub C → Option (NsqHub C)
  unfolding act
  acts [] h = some h
  acts (a ∷ rest) h = act a h >>= λ t. acts rest t

-- What is true in each phase of `Stop`: which signals are given, and which of the consumers were
-- told to stop and have stopped, in the order of the slice.
abbrev pub Stage : StopPhase → (begun ended : Bool) → List Consumer → Type 0
Stage running begun ended cs = (begun ≡ false) × (ended ≡ false) × Progress 0 0 cs
Stage waiting begun ended cs = (begun ≡ true) × (ended ≡ false) × Progress 0 0 cs
Stage (stopping k n) begun ended cs =
    (begun ≡ true) × (ended ≡ false) × (k < n) × (n ≤ length cs) × Progress k (suc k) cs
Stage (stopped n) begun ended cs =
    (begun ≡ true) × (ended ≡ true) × (n ≤ length cs) × Progress n n cs

abbrev pub IsOrdered : {C : Type 0} → NsqHub C → Type 0
IsOrdered h = Stage h.own.phase h.own.stop_prod_chan h.own.stopchan h.own.consumers

Stage-append :
    (p : StopPhase) (b d : Bool) (cs : List Consumer) (c : Consumer)
    → Runs c
    → Stage p b d cs
    → Stage p b d (cs ++ (c ∷ []))
Stage-append running b d cs c r (x, y, p) = (x, y, Progress-append 0 0 cs c r p)
Stage-append waiting b d cs c r (x, y, p) = (x, y, Progress-append 0 0 cs c r p)
Stage-append (stopping k n) b d cs c r (x, y, low, fits, p) =
    (x, y, low, omega (arith, fits, length-append cs (c ∷ [])), Progress-append k (suc k) cs c r p)
Stage-append (stopped n) b d cs c r (x, y, fits, p) =
    (x, y, omega (arith, fits, length-append cs (c ∷ [])), Progress-append n n cs c r p)

Stage-close :
    (p : StopPhase) (b d : Bool) (i : ℕ) (cs ds : List Consumer)
    → close_at i cs ≡ some ds
    → Stage p b d cs
    → Stage p b d ds
Stage-close running b d i cs ds e (x, y, p) = (x, y, close_at-Progress 0 0 i cs ds e p)
Stage-close waiting b d i cs ds e (x, y, p) = (x, y, close_at-Progress 0 0 i cs ds e p)
Stage-close (stopping k n) b d i cs ds e (x, y, low, fits, p) = (
  x,
  y,
  low,
  omega (arith, fits, close_at-length i cs ds e),
  close_at-Progress k (suc k) i cs ds e p,
)
Stage-close (stopped n) b d i cs ds e (x, y, fits, p) =
    (x, y, omega (arith, fits, close_at-length i cs ds e), close_at-Progress n n i cs ds e p)

module _ {C : Type 0} where
  next-IsOrdered :
      (k n : ℕ) (h : NsqHub C)
      → h.own.stop_prod_chan ≡ true
      → h.own.stopchan ≡ false
      → k ≤ n
      → n ≤ length h.own.consumers
      → Progress k k h.own.consumers
      → IsOrdered (next_consumer k n h)
  unfolding next_consumer
  next-IsOrdered k n h begun going le fits p = elim (Bool-cases (ltb k n)) [
    | inl low ↦
        let less : k < n = ground (arith, low) in
        rw (low, next_consumer)
          (
            begun,
            going,
            less,
            omega (arith, fits, stop_at-length k h.own.consumers),
            stop_at-Progress k h.own.consumers (omega (arith, less, fits)) p,
          )
    | inr high ↦
        let same : k ≡ n = ground (arith, high, le) in
        rw (high, next_consumer)
          (begun, refl, fits, subst (λ m. Progress m m h.own.consumers) same p)
  ]

  stage_lem :
      (h : NsqHub C) (p : StopPhase)
      → h.own.phase ≡ p
      → IsOrdered h
      → Stage p h.own.stop_prod_chan h.own.stopchan h.own.consumers
  stage_lem h p now o =
      subst (λ q. Stage q h.own.stop_prod_chan h.own.stopchan h.own.consumers) now o

  wait_ends-IsOrdered :
      (h t : NsqHub C) (p : StopPhase)
      → h.own.phase ≡ p
      → wait_ends h ≡ some t
      → IsOrdered h
      → IsOrdered t
  unfolding wait_ends
  wait_ends-IsOrdered h t waiting now e o =
      let (begun, going, p) = stage_lem h waiting now o in
      let same : next_consumer 0 (length h.own.consumers) h ≡ t = ground (arith, now, e) in
      subst IsOrdered same
        (next-IsOrdered 0 (length h.own.consumers) h begun going (omega arith) (omega arith) p)
  wait_ends-IsOrdered h t running now e o = absurd (ground arith)
  wait_ends-IsOrdered h t (stopping k n) now e o = absurd (ground arith)
  wait_ends-IsOrdered h t (stopped n) now e o = absurd (ground arith)

  stop_seen-IsOrdered :
      (h t : NsqHub C) (p : StopPhase)
      → h.own.phase ≡ p
      → stop_seen h ≡ some t
      → IsOrdered h
      → IsOrdered t
  unfolding stop_seen
  stop_seen-IsOrdered h t (stopping k n) now e o =
      let (begun, going, low, fits, p) = stage_lem h (stopping k n) now o in
      let closed : closed_at k h.own.consumers ≡ true = ground (arith, now, e) in
      let same : next_consumer (suc k) n h ≡ t = ground (arith, now, e) in
      subst IsOrdered same (
        next-IsOrdered (suc k) n h begun going (omega (arith, low)) fits
          (closed_at-Progress k h.own.consumers closed p))
  stop_seen-IsOrdered h t running now e o = absurd (ground arith)
  stop_seen-IsOrdered h t waiting now e o = absurd (ground arith)
  stop_seen-IsOrdered h t (stopped n) now e o = absurd (ground arith)

  stop_begins-IsOrdered :
      (h t : NsqHub C) (p : StopPhase)
      → h.own.phase ≡ p
      → stop_begins h ≡ some t
      → IsOrdered h
      → IsOrdered t
  unfolding stop_begins
  stop_begins-IsOrdered h t running now e o =
      let (open_chan, going, p) = stage_lem h running now o in
      let phase : t.own.phase ≡ waiting = ground arith in
      let begun : t.own.stop_prod_chan ≡ true = ground arith in
      let same : t.own.stopchan ≡ h.own.stopchan = ground arith in
      let kept : t.own.consumers ≡ h.own.consumers = ground arith in
      rw (phase, kept) (begun, same ∙ going, p)
  stop_begins-IsOrdered h t waiting now e o =
      absurd (ground (arith, e, (stage_lem h waiting now o).0))
  stop_begins-IsOrdered h t (stopping k n) now e o =
      absurd (ground (arith, e, (stage_lem h (stopping k n) now o).0))
  stop_begins-IsOrdered h t (stopped n) now e o =
      absurd (ground (arith, e, (stage_lem h (stopped n) now o).0))

module _ {C : Type 0} (lib : Library C) (fuel : ℕ) where
  IsOrdered-same :
      (h t : NsqHub C)
      → SameStop lib h t
      → t.own.consumers ≡ h.own.consumers
      → IsOrdered h
      → IsOrdered t
  IsOrdered-same h t (phase, ended, begun) kept o = rw (phase, ended, begun, kept) o

  act-IsOrdered :
      (a : Action C) (h t : NsqHub C) → act lib fuel a h ≡ some t → IsOrdered h → IsOrdered t
  unfolding act producer_event consumer_stops
  act-IsOrdered (sends name) h t e o =
      let (r, now, same) = >>=-eq-some (send lib name h) _ e in
      let (fields, kept) = send-fields lib name h r.0 r.1 now in
      subst IsOrdered (some-injective _ _ same) (IsOrdered-same h r.0 fields kept o)
  act-IsOrdered (receives name) h t e o =
      let (r, now, same) = >>=-eq-some (receive lib fuel name h) _ e in
      let (fields, more) = receive-fields lib fuel name h r.0 r.1 now in
      subst IsOrdered (some-injective _ _ same) (elim more [
        | inl kept ↦ IsOrdered-same h r.0 fields kept o
        | inr added ↦
            let (phase, ended, begun) = fields in
            rw (phase, ended, begun, added)
              (Stage-append h.own.phase _ _ h.own.consumers _ (refl, refl) o)
      ])
  act-IsOrdered (produces i ev) h t e o =
      let (ws, now, same) = >>=-eq-some (worker_at i ev h.own.producers) _ e in
      subst IsOrdered (some-injective _ _ same) o
  act-IsOrdered stop_start h t e o = stop_begins-IsOrdered h t h.own.phase refl e o
  act-IsOrdered wait_end h t e o = wait_ends-IsOrdered h t h.own.phase refl e o
  act-IsOrdered seen h t e o = stop_seen-IsOrdered h t h.own.phase refl e o
  act-IsOrdered (stops i) h t e o =
      let (cs, now, same) = >>=-eq-some (close_at i h.own.consumers) _ e in
      subst IsOrdered (some-injective _ _ same)
        (Stage-close h.own.phase _ _ i h.own.consumers cs now o)

  acts_from-IsOrdered :
      (path : List (Action C)) (h t : NsqHub C)
      → acts lib fuel path h ≡ some t
      → IsOrdered h
      → IsOrdered t
  unfolding acts
  acts_from-IsOrdered [] h t e o = subst IsOrdered (some-injective _ _ e) o
  acts_from-IsOrdered (a ∷ path) h t e o =
      let (u, now, later) = >>=-eq-some (act lib fuel a h) _ e in
      acts_from-IsOrdered path u t later (act-IsOrdered a h u now o)

  -- Whatever a new transport over NSQ goes through, `Stop` keeps its order.
  pub nsq_path-IsOrdered :
      (path : List (Action C)) (t : NsqHub C) → acts lib fuel path new ≡ some t → IsOrdered t
  unfolding new
  nsq_path-IsOrdered path t e = acts_from-IsOrdered path new t e (refl, refl, tt)

  wait_ends-exited :
      (h t : NsqHub C) (p : StopPhase)
      → h.own.phase ≡ p
      → wait_ends h ≡ some t
      → (p ≡ waiting) × (all_exited h.own.producers ≡ true)
  unfolding wait_ends
  wait_ends-exited h t waiting now e = (refl, ground (arith, now, e))
  wait_ends-exited h t running now e = absurd (ground arith)
  wait_ends-exited h t (stopping k n) now e = absurd (ground arith)
  wait_ends-exited h t (stopped n) now e = absurd (ground arith)

  -- When the wait of `Stop` ends, every producer has returned and no consumer has been told to stop.
  pub nsq_producers_first :
      (path : List (Action C)) (h t : NsqHub C)
      → acts lib fuel path new ≡ some h
      → wait_ends h ≡ some t
      → (all_exited h.own.producers ≡ true) × All Runs h.own.consumers
  nsq_producers_first path h t e last =
      let (now, exits) = wait_ends-exited h t h.own.phase refl last in
      let (_, _, p) = stage_lem h waiting now (nsq_path-IsOrdered path h e) in (exits, p)
