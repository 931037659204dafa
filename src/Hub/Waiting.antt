-- ===== src/Hub/Waiting.antt =====
-- Whole runs of a transport: `Done` is closed only after the wait of `Stop`, and what every step
-- before that keeps holds where the wait ends.
use vice.Base.{
  ℕ, ◌≡◌, refl, ap, subst, sym, true, false, Bool, List, [], ◌∷◌, ◌++◌, some, Bytes, >>=-eq-some,
}
use mathlib.Core.Option.{some-injective}
use vice.Hub.Defs.{Hub}
use vice.Hub.Logs.{extend, heard}
use vice.Hub.Runs.{
  Machine, Action, sends, receives, moves, stop_start, wait_end, stop_end, act, acts,
}

module _ {X C Ev : Type 0} where
  -- What the operations keep until the wait of `Stop` ends, `es` being the events so far of each
  -- goroutine.
  pub record Maintains (m : Machine X C (ℕ × Ev)) (closed : X → Bool)
      (P : (ℕ → List Ev) → X → Type 0) : Type 0 where
    pub send_keeps :
        (es : ℕ → List Ev) (name : Bytes) (h t : Hub X C) (ch : ℕ)
        → m.send name h ≡ some (t, ch)
        → P es h.own
        → P es t.own
    pub receive_keeps :
        (es : ℕ → List Ev) (name : Bytes) (h t : Hub X C) (ch : ℕ)
        → m.receive name h ≡ some (t, ch)
        → P es h.own
        → P es t.own
    pub event_keeps :
        (es : ℕ → List Ev) (i : ℕ) (e : Ev) (h t : Hub X C)
        → m.event (i, e) h ≡ some t
        → P es h.own
        → P (extend i e es) t.own
    pub begin_keeps :
        (es : ℕ → List Ev) (h t : Hub X C) → m.stop_begins h ≡ some t → P es h.own → P es t.own
    pub end_waits : (es : ℕ → List Ev) (h t : Hub X C) → m.stop_ends h ≡ some t → P es h.own → ⊥
    pub still_open : (es : ℕ → List Ev) (o : X) → P es o → closed o ≡ false

  -- Where a run waits: what comes before, the end of the wait, and what comes after it.
  pub record Waited (m : Machine X C (ℕ × Ev)) (path : List (Action (ℕ × Ev))) (h t : Hub X C)
      : Type 0 where
    pub before : List (Action (ℕ × Ev))
    pub after : List (Action (ℕ × Ev))
    pub waiting : Hub X C
    pub past : Hub X C
    pub parts : path ≡ before ++ (wait_end ∷ after)
    pub leads : acts m before h ≡ some waiting
    pub waits : m.wait_ends waiting ≡ some past
    pub goes_on : acts m after past ≡ some t

  module _ (m : Machine X C (ℕ × Ev)) (closed : X → Bool) (P : (ℕ → List Ev) → X → Type 0) where
    Found : (ℕ → List Ev) → List (Action (ℕ × Ev)) → Hub X C → Hub X C → Type 0
    Found es path h t = (w : Waited m path h t) × P (heard w.before es) w.waiting.own

    -- A run whose first step is not the end of the wait.
    Found-later :
        (es es' : ℕ → List Ev) (a : Action (ℕ × Ev)) (path : List (Action (ℕ × Ev)))
        (h u t : Hub X C)
        → act m a h ≡ some u
        → ((before : List (Action (ℕ × Ev))) → heard (a ∷ before) es ≡ heard before es')
        → Found es' path u t
        → Found es (a ∷ path) h t
    unfolding Found acts
    Found-later es es' a path h u t now hears (w, p) = (
      record {
        before = a ∷ w.before;
        after = w.after;
        waiting = w.waiting;
        past = w.past;
        parts = ap (λ l. a ∷ l) w.parts;
        leads = rw now w.leads;
        waits = w.waits;
        goes_on = w.goes_on;
      },
      subst (λ es. P es w.waiting.own) (sym (hears w.before)) p,
    )

    -- A run that closes `Done` has a wait in it that ends, and what the operations keep holds there.
    pub acts-Waited :
        Maintains m closed P
        → (path : List (Action (ℕ × Ev))) (es : ℕ → List Ev) (h t : Hub X C)
        → acts m path h ≡ some t
        → closed t.own ≡ true
        → P es h.own
        → (w : Waited m path h t) × P (heard w.before es) w.waiting.own
    unfolding Found acts act heard
    acts-Waited k [] es h t e done p =
        let open_still = k.still_open es h.own p in
        let same = ap (λ (u : Hub X C). closed u.own) (some-injective _ _ e) in absurd (cc)
    acts-Waited k (sends name ∷ path) es h t e done p =
        let (u, now, later) = >>=-eq-some (act m (sends name) h) _ e in
        let (r, made, same) = >>=-eq-some (m.send name h) _ now in
        let q =
          subst (λ (v : Hub X C). P es v.own) (some-injective _ _ same)
            (k.send_keeps es name h r.0 r.1 made p) in
        Found-later es es (sends name) path h u t now (λ b. refl)
          (acts-Waited k path es u t later done q)
    acts-Waited k (receives name ∷ path) es h t e done p =
        let (u, now, later) = >>=-eq-some (act m (receives name) h) _ e in
        let (r, made, same) = >>=-eq-some (m.receive name h) _ now in
        let q =
          subst (λ (v : Hub X C). P es v.own) (some-injective _ _ same)
            (k.receive_keeps es name h r.0 r.1 made p) in
        Found-later es es (receives name) path h u t now (λ b. refl)
          (acts-Waited k path es u t later done q)
    acts-Waited k (moves ev ∷ path) es h t e done p =
        let (u, now, later) = >>=-eq-some (act m (moves ev) h) _ e in
        Found-later es (extend ev.0 ev.1 es) (moves ev) path h u t now (λ b. refl)
          (acts-Waited k path (extend ev.0 ev.1 es) u t later done
            (k.event_keeps es ev.0 ev.1 h u now p))
    acts-Waited k (stop_start ∷ path) es h t e done p =
        let (u, now, later) = >>=-eq-some (act m stop_start h) _ e in
        Found-later es es stop_start path h u t now (λ b. refl)
          (acts-Waited k path es u t later done (k.begin_keeps es h u now p))
    acts-Waited k (wait_end ∷ path) es h t e done p =
        let (u, now, later) = >>=-eq-some (act m wait_end h) _ e in
        (
          record {
            before = [];
            after = path;
            waiting = h;
            past = u;
            parts = refl;
            leads = refl;
            waits = now;
            goes_on = later;
          },
          p,
        )
    acts-Waited k (stop_end ∷ path) es h t e done p =
        let (u, now, later) = >>=-eq-some (act m stop_end h) _ e in
        absurd (k.end_waits es h u now p)
