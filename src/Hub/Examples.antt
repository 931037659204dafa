-- ===== src/Hub/Examples.antt =====
-- `Send` and `Receive` over a maker that fails under one name, and the theorems about them.
use vice.Base.{
  ℕ, ◌+◌, ◌≡◌, ◌⊎◌, refl, [], ◌∷◌, ◌++◌, none, some, Bytes, codes, arith, bytes_eq, if◌then◌else◌,
  lookup, ◌≤◌, ◌<◌, replicate,
}
use vice.Transport.{Err}
use vice.Hub.Defs.{Hub, sending, Made, made, not_made, obtain, Keeps, IsMaker}
use vice.Hub.Caching.{obtain_again}
use vice.Hub.Distinct.{IsDistinct, begin, call, Reach-IsDistinct, obtain-IsDistinct}

-- Fails with 7 under the name "bad".
flaky : Bytes → Hub ℕ ℕ → Made ℕ ℕ
flaky name h =
    if bytes_eq name (codes "bad")
    then not_made h 7
    else made (record h { chans = h.chans + 1 }) h.chans

flaky-made :
    (name : Bytes) (h h' : Hub ℕ ℕ) (ch : ℕ)
    → flaky name h ≡ made h' ch
    → Keeps h h' × (h.chans ≤ ch) × (ch < h'.chans)
unfolding flaky
flaky-made name h h' ch e = ground arith

flaky-failed : (name : Bytes) (h h' : Hub ℕ ℕ) (c : ℕ) → flaky name h ≡ not_made h' c → Keeps h h'
unfolding flaky
flaky-failed name h h' c e = ground arith

flaky-IsMaker : IsMaker flaky
flaky-IsMaker = record {
  keeps = λ name h h' ch e. (flaky-made name h h' ch e).0;
  is_new = λ name h h' ch e. let (_, low, high) = flaky-made name h h' ch e in (low, high);
  keeps_failed = flaky-failed;
}

abbrev start : Hub ℕ ℕ
start = record { send_chans = []; receive_chans = []; err_chan = []; chans = 0; own = 0 }

abbrev sent_once : Hub ℕ ℕ
sent_once = record start { send_chans = (codes "a", 0) ∷ []; chans = 1 }

abbrev broken_name : Err ℕ
broken_name = record { message = []; name = codes "bad"; err = 7 }

first_send : obtain sending flaky (codes "a") start ≡ some (sent_once, 0)
unfolding obtain flaky
first_send = refl

obtain_again_example :
    (obtain sending flaky (codes "a") sent_once ≡ some (sent_once, 0))
    ⊎ ((lookup (codes "a") sent_once.send_chans ≡ none)
        × ((c : ℕ) × (sent_once.err_chan
              ≡ start.err_chan ++ (record { message = []; name = codes "a"; err = c } ∷ []))))
obtain_again_example =
    obtain_again sending flaky flaky-IsMaker (codes "a") start sent_once 0 first_send

obtain-IsDistinct_example : IsDistinct sent_once
obtain-IsDistinct_example =
    obtain-IsDistinct sending flaky (codes "a") start sent_once 0 flaky-IsMaker
      (Reach-IsDistinct (λ _. flaky) (λ _. flaky-IsMaker) refl refl begin) first_send

Reach-IsDistinct_example : IsDistinct sent_once
Reach-IsDistinct_example =
    Reach-IsDistinct (λ _. flaky) {start = start} (λ _. flaky-IsMaker) refl refl
      (call begin sending (codes "a") 0 first_send)

abbrev full : Hub ℕ ℕ
full = record start { err_chan = replicate 10 broken_name }

bad_fails : flaky (codes "bad") full ≡ not_made full 7
unfolding flaky
bad_fails = refl
