-- ===== src/Fake/Recorded.antt =====
-- queues/sqs/sqsfakes/fake_sqsapi.go: what `Invocations` shows of the calls of the fake.
use vice.Base.{◌≡◌, List, [], ◌∷◌, map}
use vice.Fake.Copied.{NoRepeat}
use vice.Fake.History.{Op}
use vice.Fake.SendMessage
use vice.Fake.SendMessageBatch
use vice.Fake.ReceiveMessage
use vice.Fake.DeleteMessage
use vice.Fake.{
  Types, Any, of_send, of_batch, of_receive, of_delete, Results, FakeSqsApi, recorded,
  all_invocations,
}

-- What is done to the fake.
pub data Action (T : Types) : Type 0 where
  sends : Op T.send_input (Results T.send_output T.error) → Action T
  batches : Op T.batch_input (Results T.batch_output T.error) → Action T
  receives : Op T.receive_input (Results T.receive_output T.error) → Action T
  deletes : Op T.delete_input (Results T.delete_output T.error) → Action T

module _ {T : Types} where
  unfoldable pub act : Action T → FakeSqsApi T → FakeSqsApi T
  act (sends op) f = SendMessage.perform op f
  act (batches op) f = SendMessageBatch.perform op f
  act (receives op) f = ReceiveMessage.perform op f
  act (deletes op) f = DeleteMessage.perform op f

  unfoldable pub acts : List (Action T) → FakeSqsApi T → FakeSqsApi T
  unfolding act
  acts [] f = f
  acts (a ∷ rest) f = acts rest (act a f)

  abbrev as_calls : {A : Type 0} → (A → Any T) → List A → List (List (Any T))
  as_calls box = map (λ a. box a ∷ [])

  -- The record of the calls agrees with the arguments that the methods keep.
  record Agrees (f : FakeSqsApi T) : Type 0 where
    sent : recorded SendMessage.key f.invocations ≡ as_calls of_send f.send_message.arguments
    batched :
        recorded SendMessageBatch.key f.invocations
        ≡ as_calls of_batch f.send_message_batch.arguments
    received :
        recorded ReceiveMessage.key f.invocations ≡ as_calls of_receive f.receive_message.arguments
    deleted :
        recorded DeleteMessage.key f.invocations ≡ as_calls of_delete f.delete_message.arguments
    no_repeat : NoRepeat f.invocations

  -- What `Invocations` returns is that too.
  pub record IsRecorded (f : FakeSqsApi T) : Type 0 where
    pub sent :
        recorded SendMessage.key (all_invocations f) ≡ as_calls of_send f.send_message.arguments
    pub batched :
        recorded SendMessageBatch.key (all_invocations f)
        ≡ as_calls of_batch f.send_message_batch.arguments
    pub received :
        recorded ReceiveMessage.key (all_invocations f)
        ≡ as_calls of_receive f.receive_message.arguments
    pub deleted :
        recorded DeleteMessage.key (all_invocations f)
        ≡ as_calls of_delete f.delete_message.arguments
