-- ===== src/Nsq/Progress.antt =====
-- queues/nsq/nsq.go, `Stop`: its loop over the consumers.
use vice.Base.{
  ℕ, zero, suc, ◌<◌, ◌≡◌, refl, ap, subst, sym, ◌∙◌, true, false, List, [], ◌∷◌, ◌++◌, some, arith,
  length, All, All-append, >>=-eq-some,
}
use mathlib.Core.Option.{some-injective}
use vice.Nsq.{Consumer, stop_at, close_at, closed_at}

-- A consumer that nobody has told to stop.
abbrev pub Runs : Consumer → Type 0
Runs c = (c.stop_called ≡ false) × (c.stop_chan ≡ false)

-- The first `over` consumers have stopped, `told` of all were told to, and the rest run.
abbrev pub Progress : (over told : ℕ) → List Consumer → Type 0
Progress zero zero cs = All Runs cs
Progress (suc i) zero cs = ⊥
Progress zero (suc m) [] = ⊥
Progress zero (suc m) (c ∷ cs) = (c.stop_called ≡ true) × Progress zero m cs
Progress (suc i) (suc m) [] = ⊥
Progress (suc i) (suc m) (c ∷ cs) = (c.stop_called ≡ true) × (c.stop_chan ≡ true) × Progress i m cs

pub Progress-append :
    (i m : ℕ) (cs : List Consumer) (c : Consumer)
    → Runs c
    → Progress i m cs
    → Progress i m (cs ++ (c ∷ []))
Progress-append zero zero cs c r p = All-append Runs cs _ p (r, tt)
Progress-append (suc i) zero cs c r p = absurd p
Progress-append zero (suc m) [] c r p = absurd p
Progress-append zero (suc m) (d ∷ cs) c r p = (p.0, Progress-append zero m cs c r p.1)
Progress-append (suc i) (suc m) [] c r p = absurd p
Progress-append (suc i) (suc m) (d ∷ cs) c r p = (p.0, p.1, Progress-append i m cs c r p.2)

-- c.Stop() on the first consumer that runs.
pub stop_at-Progress :
    (k : ℕ) (cs : List Consumer)
    → k < length cs
    → Progress k k cs
    → Progress k (suc k) (stop_at k cs)
unfolding stop_at
stop_at-Progress zero [] low p = absurd (omega (arith, low))
stop_at-Progress zero (c ∷ cs) low p = (refl, p.1)
stop_at-Progress (suc k) [] low p = absurd p
stop_at-Progress (suc k) (c ∷ cs) low p = (p.0, p.1, stop_at-Progress k cs (omega (arith, low)) p.2)

pub stop_at-length : (k : ℕ) (cs : List Consumer) → length (stop_at k cs) ≡ length cs
unfolding stop_at
stop_at-length k [] = refl
stop_at-length zero (c ∷ cs) = refl
stop_at-length (suc k) (c ∷ cs) = ap suc (stop_at-length k cs)

-- A StopChan that is seen closed.
pub closed_at-Progress :
    (k : ℕ) (cs : List Consumer)
    → closed_at k cs ≡ true
    → Progress k (suc k) cs
    → Progress (suc k) (suc k) cs
unfolding closed_at
closed_at-Progress zero [] e p = absurd p
closed_at-Progress zero (c ∷ cs) e p = (p.0, e, p.1)
closed_at-Progress (suc k) [] e p = absurd p
closed_at-Progress (suc k) (c ∷ cs) e p = (p.0, p.1, closed_at-Progress k cs e p.2)

close_at_running : (i : ℕ) (cs ds : List Consumer) → close_at i cs ≡ some ds → All Runs cs → ⊥
unfolding close_at
close_at_running i [] ds h all = ground arith
close_at_running zero (c ∷ cs) ds h all = ground (arith, h, all.0.0)
close_at_running (suc i) (c ∷ cs) ds h all =
    let (es, now, _) = >>=-eq-some (close_at i cs) _ h in close_at_running i cs es now all.1

told_first :
    (m : ℕ) (c : Consumer) (cs : List Consumer)
    → c.stop_called ≡ true
    → Progress zero m cs
    → Progress zero (suc m) (c ∷ cs)
told_first m c cs told p = (told, p)

stopped_first :
    (i m : ℕ) (c : Consumer) (cs : List Consumer)
    → c.stop_called ≡ true
    → c.stop_chan ≡ true
    → Progress i m cs
    → Progress (suc i) (suc m) (c ∷ cs)
stopped_first i m c cs told over p = (told, over, p)

pub close_at-Progress :
    (i m j : ℕ) (cs ds : List Consumer)
    → close_at j cs ≡ some ds
    → Progress i m cs
    → Progress i m ds
unfolding close_at
close_at-Progress zero zero j cs ds h p = absurd (close_at_running j cs ds h p)
close_at-Progress (suc i) zero j cs ds h p = absurd p
close_at-Progress zero (suc m) j [] ds h p = absurd p
close_at-Progress zero (suc m) zero (c ∷ cs) ds h p =
    let d : Consumer = record c { stop_chan = true } in
    let same : (d ∷ cs) ≡ ds = ground (arith, h, p.0) in
    subst (Progress zero (suc m)) same (told_first m d cs p.0 p.1)
close_at-Progress zero (suc m) (suc j) (c ∷ cs) ds h p =
    let (es, now, same) = >>=-eq-some (close_at j cs) _ h in
    subst (Progress zero (suc m)) (some-injective _ _ same)
      (p.0, close_at-Progress zero m j cs es now p.1)
close_at-Progress (suc i) (suc m) j [] ds h p = absurd p
close_at-Progress (suc i) (suc m) zero (c ∷ cs) ds h p =
    let d : Consumer = record c { stop_chan = true } in
    let same : (d ∷ cs) ≡ ds = ground (arith, h, p.0) in
    subst (Progress (suc i) (suc m)) same (stopped_first i m d cs p.0 refl p.2)
close_at-Progress (suc i) (suc m) (suc j) (c ∷ cs) ds h p =
    let (es, now, same) = >>=-eq-some (close_at j cs) _ h in
    subst (Progress (suc i) (suc m)) (some-injective _ _ same)
      (p.0, p.1, close_at-Progress i m j cs es now p.2)

pub close_at-length :
    (j : ℕ) (cs ds : List Consumer) → close_at j cs ≡ some ds → length ds ≡ length cs
unfolding close_at
close_at-length j [] ds h = absurd (ground arith)
close_at-length zero (c ∷ cs) ds h = ground arith
close_at-length (suc j) (c ∷ cs) ds h =
    let (es, now, same) = >>=-eq-some (close_at j cs) _ h in
    ap length (sym (some-injective _ _ same)) ∙ ap suc (close_at-length j cs es now)
