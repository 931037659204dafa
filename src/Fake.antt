-- ===== src/Fake.antt =====
-- queues/sqs/sqsfakes/fake_sqsapi.go: the fake service of the tests, with the four methods that
-- queues/sqs calls. The types of the SDK are parameters. A pointer to an output may be nil, and so
-- may an error.
pub mod Calling
pub mod History
pub mod SendMessage
pub mod SendMessageBatch
pub mod ReceiveMessage
pub mod DeleteMessage
pub mod Copied
pub mod Recorded
mod Examples
use vice.Base.{List, [], ◌∷◌, ◌++◌, Option, none, some, Bytes, codes, lookup, insert}
use vice.Fake.Calling.{Method, new_method}

pub record Types : Type 1 where
  pub send_input : Type 0
  pub send_output : Type 0
  pub batch_input : Type 0
  pub batch_output : Type 0
  pub receive_input : Type 0
  pub receive_output : Type 0
  pub delete_input : Type 0
  pub delete_output : Type 0
  pub error : Type 0

-- The results of a method.
abbrev pub Results : Type 0 → Type 0 → Type 0
Results out err = Option out × Option err

-- An argument as `invocations` has it, an interface{}.
pub data Any (T : Types) : Type 0 where
  of_send : T.send_input → Any T
  of_batch : T.batch_input → Any T
  of_receive : T.receive_input → Any T
  of_delete : T.delete_input → Any T

-- Calls under the names of their methods, each a list of arguments.
abbrev pub Invocations : Types → Type 0
Invocations T = List (Bytes × List (List (Any T)))

pub record FakeSqsApi (T : Types) : Type 0 where
  pub send_message : Method T.send_input (Results T.send_output T.error)
  pub send_message_batch : Method T.batch_input (Results T.batch_output T.error)
  pub receive_message : Method T.receive_input (Results T.receive_output T.error)
  pub delete_message : Method T.delete_input (Results T.delete_output T.error)
  pub invocations : Invocations T

-- new(sqsfakes.FakeSQSAPI)
unfoldable pub new_fake : (T : Types) → FakeSqsApi T
unfolding new_method
new_fake T = record {
  send_message = new_method (none, none);
  send_message_batch = new_method (none, none);
  receive_message = new_method (none, none);
  delete_message = new_method (none, none);
  invocations = [];
}

module _ {T : Types} where
  -- The calls under a name; a missing name has none.
  abbrev pub recorded : Bytes → Invocations T → List (List (Any T))
  recorded key inv = elim (lookup key inv) [ none ↦ [] | some calls ↦ calls ]

  unfoldable pub record_invocation : Bytes → List (Any T) → FakeSqsApi T → FakeSqsApi T
  record_invocation key args f = record f {
    invocations = insert key (recorded key f.invocations ++ (args ∷ [])) f.invocations;
  }

  -- The loop of `Invocations`: a copy of the map.
  unfoldable pub copied : Invocations T → Invocations T → Invocations T
  copied [] into = into
  copied ((key, value) ∷ rest) into = copied rest (insert key value into)

  unfoldable pub all_invocations : FakeSqsApi T → Invocations T
  unfolding copied
  all_invocations f = copied f.invocations []
