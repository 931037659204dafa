-- ===== src/Greeter/Examples.antt =====
-- The theorems about example/greeter/service/main.go at a concrete run and library.
use vice.Base.{
  ℕ, ◌≡◌, ◌≢◌, ◌<◌, refl, true, List, [], ◌∷◌, none, some, codes, arith, ltb, if◌then◌else◌,
}
use vice.Transport.{Err}
use vice.Nsq.{Library, NsqHub}
use vice.Greeter.{
  finished, Greeter, new_greeter, Event, ctx_ends, case_done, case_err, case_name, greetings_takes,
  run, start,
}
use vice.Greeter.Answering.{Answers, run-Answers}
use vice.Greeter.Starting.{start_errs, start-connects}

abbrev trouble : Err ℕ
trouble = record { message = []; name = codes "names"; err = 7 }

abbrev events : List (Event ℕ)
events =
    case_name (codes "Mat")
    ∷ greetings_takes
    ∷ case_err trouble
    ∷ case_name (codes "Ann")
    ∷ ctx_ends
    ∷ greetings_takes
    ∷ case_done
    ∷ []

abbrev after_events : Greeter ℕ
after_events = record {
  ctx_done = true;
  phase = finished;
  heard = codes "Mat" ∷ codes "Ann" ∷ [];
  said = codes "Hello Mat" ∷ codes "Hello Ann" ∷ [];
  logged = trouble ∷ [];
}

events_run : run new_greeter events ≡ some after_events
unfolding run new_greeter
events_run = refl

run-Answers_example : Answers after_events (codes "Mat" ∷ codes "Ann" ∷ []) (trouble ∷ [])
run-Answers_example = run-Answers after_events events events_run

-- NSQ is reached at the third call; no producer is made.
abbrev lib : Library ℕ
lib = record {
  new_producer = λ call. some 8;
  new_consumer = λ call name. none;
  connect = λ consumer call. if ltb call 2 then some 7 else none;
}

two_fail : (i : ℕ) → i < 2 → lib.connect 0 i ≢ none
two_fail i low e = absurd (ground arith)

start-connects_example :
    (t : NsqHub ℕ) × (names greetings : ℕ) × (start lib 3 ≡ some (t, names, greetings))
    × (names ≢ greetings)
    × (t.own.connects ≡ 3)
    × (t.err_chan ≡ start_errs (some 8))
start-connects_example = start-connects lib 2 3 refl two_fail refl (omega arith)
