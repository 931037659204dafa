-- ===== src/Fake/ReceiveMessage.antt =====
-- queues/sqs/sqsfakes/fake_sqsapi.go: `ReceiveMessage` and what sets and reads its calls.
use vice.Base.{ℕ, [], ◌∷◌, Option, Bytes, codes}
use vice.Fake.Calling
use vice.Fake.History.{Op, sets_stub, sets_results, sets_results_on, is_called}
use vice.Fake.{Types, FakeSqsApi, Results, of_receive, record_invocation}

abbrev pub key : Bytes
key = codes "ReceiveMessage"

module _ {T : Types} where
  unfoldable pub call :
      T.receive_input → FakeSqsApi T → FakeSqsApi T × Results T.receive_output T.error
  unfolding Calling.call record_invocation
  call arg f =
      let (m, results) = Calling.call arg f.receive_message in
      (record_invocation key (of_receive arg ∷ []) (record f { receive_message = m }), results)

  unfoldable pub call_count : FakeSqsApi T → ℕ
  unfolding Calling.call_count
  call_count f = Calling.call_count f.receive_message

  unfoldable pub calls :
      Option (T.receive_input → Results T.receive_output T.error) → FakeSqsApi T → FakeSqsApi T
  unfolding Calling.calls
  calls stub f = record f { receive_message = Calling.calls stub f.receive_message }

  unfoldable pub args_for_call : ℕ → FakeSqsApi T → Option T.receive_input
  unfolding Calling.args_for_call
  args_for_call i f = Calling.args_for_call i f.receive_message

  unfoldable pub returns : Option T.receive_output → Option T.error → FakeSqsApi T → FakeSqsApi T
  unfolding Calling.returns
  returns out err f = record f { receive_message = Calling.returns (out, err) f.receive_message }

  unfoldable pub returns_on_call :
      ℕ → Option T.receive_output → Option T.error → FakeSqsApi T → FakeSqsApi T
  unfolding Calling.returns_on_call
  returns_on_call i out err f = record f {
    receive_message = Calling.returns_on_call i (out, err) f.receive_message;
  }

  -- One of these calls.
  unfoldable pub perform :
      Op T.receive_input (Results T.receive_output T.error) → FakeSqsApi T → FakeSqsApi T
  unfolding call calls returns returns_on_call
  perform (sets_stub stub) f = calls stub f
  perform (sets_results r) f = returns r.0 r.1 f
  perform (sets_results_on i r) f = returns_on_call i r.0 r.1 f
  perform (is_called arg) f = (call arg f).0
