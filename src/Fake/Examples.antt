-- ===== src/Fake/Examples.antt =====
-- The theorems about queues/sqs/sqsfakes/fake_sqsapi.go at concrete calls.
use vice.Base.{ℕ, ◌+◌, ◌≡◌, List, [], ◌∷◌, none, some, get_elem?}
use vice.Fake.Calling.{new_method, call_count, args_for_call}
use vice.Fake.History.{
  Op, sets_stub, sets_results, sets_results_on, is_called, run, fake_method-answers,
}
use vice.Fake.Recorded.{Action, sends, batches}
use vice.Fake.{Types}

-- Results for every call, then others for the call after the first, then a stub.
abbrev ops : List (Op ℕ ℕ)
ops =
    is_called 10
    ∷ sets_results 5
    ∷ sets_results_on 2 6
    ∷ is_called 11
    ∷ is_called 12
    ∷ sets_stub (some (λ n. n + 100))
    ∷ is_called 13
    ∷ []

fake_method-answers_example :
    let (m, results) = run ops (new_method 0) in
    (results ≡ 0 ∷ 5 ∷ 6 ∷ 113 ∷ [])
    × (call_count m ≡ 4)
    × ((i : ℕ) → args_for_call i m ≡ get_elem? (10 ∷ 11 ∷ 12 ∷ 13 ∷ []) i)
fake_method-answers_example = fake_method-answers 0 ops

abbrev numbers : Types
numbers = record {
  send_input = ℕ;
  send_output = ℕ;
  batch_input = List ℕ;
  batch_output = ℕ;
  receive_input = ℕ;
  receive_output = ℕ;
  delete_input = ℕ;
  delete_output = ℕ;
  error = ℕ;
}

abbrev path : List (Action numbers)
path =
    batches (sets_results (some 0, none))
    ∷ batches (is_called (1 ∷ 2 ∷ []))
    ∷ sends (is_called 3)
    ∷ batches (is_called (4 ∷ []))
    ∷ []
