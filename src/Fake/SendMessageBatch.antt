-- ===== src/Fake/SendMessageBatch.antt =====
-- queues/sqs/sqsfakes/fake_sqsapi.go: `SendMessageBatch` and what sets and reads its calls.
use vice.Base.{ℕ, [], ◌∷◌, Option, Bytes, codes}
use vice.Fake.Calling
use vice.Fake.History.{Op, sets_stub, sets_results, sets_results_on, is_called}
use vice.Fake.{Types, FakeSqsApi, Results, of_batch, record_invocation}

abbrev pub key : Bytes
key = codes "SendMessageBatch"

module _ {T : Types} where
  unfoldable pub call : T.batch_input → FakeSqsApi T → FakeSqsApi T × Results T.batch_output T.error
  unfolding Calling.call record_invocation
  call arg f =
      let (m, results) = Calling.call arg f.send_message_batch in
      (record_invocation key (of_batch arg ∷ []) (record f { send_message_batch = m }), results)

  unfoldable pub call_count : FakeSqsApi T → ℕ
  unfolding Calling.call_count
  call_count f = Calling.call_count f.send_message_batch

  unfoldable pub calls :
      Option (T.batch_input → Results T.batch_output T.error) → FakeSqsApi T → FakeSqsApi T
  unfolding Calling.calls
  calls stub f = record f { send_message_batch = Calling.calls stub f.send_message_batch }

  unfoldable pub args_for_call : ℕ → FakeSqsApi T → Option T.batch_input
  unfolding Calling.args_for_call
  args_for_call i f = Calling.args_for_call i f.send_message_batch

  unfoldable pub returns : Option T.batch_output → Option T.error → FakeSqsApi T → FakeSqsApi T
  unfolding Calling.returns
  returns out err f = record f {
    send_message_batch = Calling.returns (out, err) f.send_message_batch;
  }

  unfoldable pub returns_on_call :
      ℕ → Option T.batch_output → Option T.error → FakeSqsApi T → FakeSqsApi T
  unfolding Calling.returns_on_call
  returns_on_call i out err f = record f {
    send_message_batch = Calling.returns_on_call i (out, err) f.send_message_batch;
  }

  -- One of these calls.
  unfoldable pub perform :
      Op T.batch_input (Results T.batch_output T.error) → FakeSqsApi T → FakeSqsApi T
  unfolding call calls returns returns_on_call
  perform (sets_stub stub) f = calls stub f
  perform (sets_results r) f = returns r.0 r.1 f
  perform (sets_results_on i r) f = returns_on_call i r.0 r.1 f
  perform (is_called arg) f = (call arg f).0
