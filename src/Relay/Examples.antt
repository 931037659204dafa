-- ===== src/Relay/Examples.antt =====
-- Runs of the goroutine, and the theorems about it at those runs.
use vice.Base.{ℕ, ◌≡◌, refl, true, false, List, [], ◌∷◌, none, some, Bytes, codes}
use vice.Relay.{Relay, Event, client_send, stop, case_stop, case_message, new_relay, step, run}
use vice.Relay.Order.{accepted, Follows, run-Follows}

abbrev queue : Bytes
queue = codes "q"

-- Two messages, the second of which fails with 7.
abbrev two : List (Event ℕ)
two =
    client_send (codes "a")
    ∷ client_send (codes "b")
    ∷ case_message none
    ∷ stop
    ∷ case_message (some 7)
    ∷ []

abbrev sent_two : Relay ℕ
sent_two = record {
  pending = [];
  stopping = true;
  attempts =
      record { message = codes "a"; result = none }
      ∷ record { message = codes "b"; result = some 7 }
      ∷ [];
  errs = record { message = codes "b"; name = queue; err = 7 } ∷ [];
  exited = false;
}

two-run : run queue (new_relay false) two ≡ some sent_two
unfolding run new_relay
two-run = refl

run-Follows_example : Follows queue sent_two (accepted two)
run-Follows_example = run-Follows queue false sent_two two two-run

last_step : step queue sent_two (case_stop true) ≡ some (record sent_two { exited = true })
unfolding step
last_step = refl

abbrev waiting : Relay ℕ
waiting = record sent_two { pending = codes "c" ∷ [] }

down_step : step queue waiting (case_stop false) ≡ some (record waiting { exited = true })
unfolding step
down_step = refl
