-- ===== src/Hub/Defs.antt =====
-- The state that every transport of queues/ has, and `Send` and `Receive` over it.
use vice.Base.{
  ℕ, ◌+◌, ◌≤◌, ◌<◌, ◌≡◌, Bytes, List, [], ◌∷◌, ◌++◌, Option, none, some, ltb, length, lookup,
  insert, if◌then◌else◌, ◌>>=◌,
}
use vice.Transport.{Err}

-- `X` is what one kind of transport keeps besides, `C` its errors.
pub record Hub (X C : Type 0) : Type 0 where
  pub send_chans : List (Bytes × ℕ)
  pub receive_chans : List (Bytes × ℕ)
  pub err_chan : List (Err C)  -- sent and not yet read, the oldest first
  pub chans : ℕ  -- the channels of messages made so far
  pub own : X

-- make(chan error, 10)
abbrev pub err_chan_size : ℕ
err_chan_size = 10

-- The result of `makeSubscriber` and the like.
pub data Made (X C : Type 0) : Type 0 where
  made : Hub X C → (chan : ℕ) → Made X C
  not_made : Hub X C → C → Made X C

-- What a call of a library returns: a value without an error, or an error.
pub data Answer (A C : Type 0) : Type 0 where
  gives : A → Answer A C
  refuses : C → Answer A C

-- Which of the two maps a call works on.
pub data Side : Type 0 where
  sending receiving : Side

abbrev pub table : {X C : Type 0} → Side → Hub X C → List (Bytes × ℕ)
table sending h = h.send_chans
table receiving h = h.receive_chans

abbrev pub set_table : {X C : Type 0} → Side → List (Bytes × ℕ) → Hub X C → Hub X C
set_table sending m h = record h { send_chans = m }
set_table receiving m h = record h { receive_chans = m }

module _ {X C : Type 0} where
  unfoldable pub new_chan : Hub X C → Hub X C × ℕ
  new_chan h = (record h { chans = h.chans + 1 }, h.chans)

  unfoldable pub send_err : Err C → Hub X C → Option (Hub X C)
  send_err e h =
      if ltb (length h.err_chan) err_chan_size
      then some (record h { err_chan = h.err_chan ++ (e ∷ []) })
      else none

  -- The client reads an error.
  unfoldable pub read_err : Hub X C → Option (Hub X C × Err C)
  read_err h = elim h.err_chan [ [] ↦ none | e ∷ rest ↦ some (record h { err_chan = rest }, e) ]

  -- A failed call reports the error under the name, and returns a channel of its own.
  unfoldable pub fail : Bytes → C → Hub X C → Option (Hub X C × ℕ)
  unfolding send_err new_chan
  fail name c h =
      send_err (record { message = []; name = name; err = c }) h >>= λ h'. some (new_chan h')

  -- The body of `Send` and of `Receive`: the channel that the map has for the name, or a new one
  -- that goes into the map.
  unfoldable pub obtain :
      Side → (Bytes → Hub X C → Made X C) → Bytes → Hub X C → Option (Hub X C × ℕ)
  obtain side make name h = elim (lookup name (table side h)) [
    | some ch ↦ some (h, ch)
    | none ↦ elim (make name h) [
      | made h' ch ↦ some (set_table side (insert name ch (table side h')) h', ch)
      | not_made h' c ↦ fail name c h'
    ]
  ]

-- What `Send` and `Receive` rely on: making a channel touches neither map nor the error channel,
-- and a channel that it returns is new.
pub record Keeps {X C : Type 0} (h h' : Hub X C) : Type 0 where
  pub send_kept : h'.send_chans ≡ h.send_chans
  pub receive_kept : h'.receive_chans ≡ h.receive_chans
  pub errs_kept : h'.err_chan ≡ h.err_chan
  pub chans_grow : h.chans ≤ h'.chans

pub record IsMaker {X C : Type 0} (make : Bytes → Hub X C → Made X C) : Type 0 where
  pub keeps : (name : Bytes) (h h' : Hub X C) (ch : ℕ) → make name h ≡ made h' ch → Keeps h h'
  pub is_new :
      (name : Bytes) (h h' : Hub X C) (ch : ℕ)
      → make name h ≡ made h' ch
      → (h.chans ≤ ch) × (ch < h'.chans)
  pub keeps_failed :
      (name : Bytes) (h h' : Hub X C) (c : C) → make name h ≡ not_made h' c → Keeps h h'
