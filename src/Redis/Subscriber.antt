-- ===== src/Redis/Subscriber.antt =====
-- queues/redis/redis.go, `makeSubscriber`: the goroutine that pops from a list. A value counts as
-- delivered once the channel has taken it.
pub mod Delivery
pub mod Reversal
use vice.Base.{
  ℕ, ◌≡◌, refl, Bool, true, false, List, [], ◌∷◌, ◌++◌, Option, none, some, Bytes, if◌then◌else◌,
  ◌>>=◌, arith,
}
use vice.Transport.{Err}

-- What `BRPop` returns: an error, or the name of the list and the value.
pub data Popped (C : Type 0) : Type 0 where
  pop_failed : C → Popped C
  popped : List Bytes → Popped C

pub record Subscriber (C : Type 0) : Type 0 where
  pub errs : List (Err C)
  pub delivered : List Bytes
  pub exited : Bool

-- data[len(data)-1], which panics on an empty answer.
abbrev pub last : List Bytes → Option Bytes
last [] = none
last (x ∷ []) = some x
last (x ∷ y ∷ xs) = last (y ∷ xs)

module _ {C : Type 0} (name : Bytes) where
  -- One round of the loop; `none` is a panic. stopSubChan is looked at only after an error.
  unfoldable pub round : Bool → Popped C → Subscriber C → Option (Subscriber C)
  round stopped (pop_failed e) s =
      if s.exited
      then some s
      else if stopped
      then some (record s { exited = true })
      else some (record s { errs = s.errs ++ (record { message = []; name = name; err = e } ∷ []) })
  round stopped (popped texts) s =
      if s.exited
      then some s
      else last texts >>= λ v. some (record s { delivered = s.delivered ++ (v ∷ []) })

  unfoldable pub rounds : List (Bool × Popped C) → Subscriber C → Option (Subscriber C)
  unfolding round
  rounds [] s = some s
  rounds ((stopped, answer) ∷ rest) s = round stopped answer s >>= λ t. rounds rest t
