-- ===== src/Hub/Runs.antt =====
-- Whole runs of a transport: calls of `Send`, `Receive` and `Stop`, and events of its goroutines, in
-- any order.
use vice.Base.{ℕ, ◌≡◌, subst, sym, inl, inr, List, [], ◌∷◌, Option, some, Bytes, ◌>>=◌}
use vice.Hub.Defs.{Hub, Side, Made, made, not_made, obtain}
use vice.Hub.Owning.{obtain-own}

-- The operations of a transport. `Ev` is what happens to its goroutines.
pub record Machine (X C Ev : Type 0) : Type 0 where
  pub send : Bytes → Hub X C → Option (Hub X C × ℕ)
  pub receive : Bytes → Hub X C → Option (Hub X C × ℕ)
  pub event : Ev → Hub X C → Option (Hub X C)
  pub stop_begins : Hub X C → Option (Hub X C)
  pub wait_ends : Hub X C → Option (Hub X C)
  pub stop_ends : Hub X C → Option (Hub X C)

module _ {X C : Type 0} where
  -- A maker that keeps it, whether it makes a channel or fails.
  pub record MakerKeeps (make : Bytes → Hub X C → Made X C) (P : X → Type 0) : Type 0 where
    pub when_made :
        (name : Bytes) (h t : Hub X C) (ch : ℕ) → make name h ≡ made t ch → P h.own → P t.own
    pub when_failed :
        (name : Bytes) (h t : Hub X C) (e : C) → make name h ≡ not_made t e → P h.own → P t.own

  -- `Send` and `Receive` keep what their makers keep.
  pub obtain-keeps :
      (side : Side) (make : Bytes → Hub X C → Made X C) (P : X → Type 0)
      → MakerKeeps make P
      → (name : Bytes) (h t : Hub X C) (ch : ℕ) → obtain side make name h ≡ some (t, ch)
      → P h.own
      → P t.own
  obtain-keeps side make P k name h t ch e p = elim (obtain-own side make name h t ch e) [
    | inl same ↦ subst P (sym same) p
    | inr (inl (u, c, m, same)) ↦ subst P (sym same) (k.when_made name h u c m p)
    | inr (inr (u, c, m, same)) ↦ subst P (sym same) (k.when_failed name h u c m p)
  ]

-- One of them.
pub data Action (Ev : Type 0) : Type 0 where
  sends : Bytes → Action Ev
  receives : Bytes → Action Ev
  moves : Ev → Action Ev
  stop_start : Action Ev
  wait_end : Action Ev
  stop_end : Action Ev

module _ {X C Ev : Type 0} where
  unfoldable pub act : Machine X C Ev → Action Ev → Hub X C → Option (Hub X C)
  act m (sends name) h = m.send name h >>= λ r. some r.0
  act m (receives name) h = m.receive name h >>= λ r. some r.0
  act m (moves e) h = m.event e h
  act m stop_start h = m.stop_begins h
  act m wait_end h = m.wait_ends h
  act m stop_end h = m.stop_ends h

  unfoldable pub acts : Machine X C Ev → List (Action Ev) → Hub X C → Option (Hub X C)
  unfolding act
  acts m [] h = some h
  acts m (a ∷ rest) h = act m a h >>= λ t. acts m rest t
