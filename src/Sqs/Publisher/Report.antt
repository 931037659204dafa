-- ===== src/Sqs/Publisher/Report.antt =====
-- queues/sqs/sqs.go, `makePublisher` and `sendBatch`: which errors reach the error channel.
use vice.Base.{
  ℕ, ◌≡◌, refl, ap, sym, ◌∙◌, inl, inr, List, [], ◌∷◌, ◌++◌, map, Option, none, some, Bytes, arith,
  append_assoc, append-nil, >>=-eq-some,
}
use vice.Transport.{Err}
use vice.Sqs.Service.{
  Call, send_message, send_message_batch, receive_message, delete_message, Service, refused, failed,
  BatchResponse, Cause, service, text,
}
use vice.Sqs.Publisher.Fields.{flush_fields, send_one_fields}
use vice.Sqs.Publisher.Steps.{
  step-client_send, step-stop, step-case_stop, step-case_message, step-case_timeout,
}
use vice.Sqs.Publisher.{
  Publisher, Event, client_send, stop, case_stop, case_message, case_timeout, new_publisher, flush,
  at_exit, send_one, on_message, on_timeout, step, run,
}

-- What a response to a call says went wrong, as errors on the error channel: the message with the
-- error for a single send; for a batch the error of the request, or the text of each failed entry.
abbrev pub of_send : {E : Type 0} → Bytes → Bytes → Option E → List (Err (Cause E))
of_send url body none = []
of_send url body (some e) = record { message = body; name = url; err = service e } ∷ []

abbrev pub of_batch : {E : Type 0} → Bytes → BatchResponse E → List (Err (Cause E))
of_batch url (refused e) = record { message = []; name = url; err = service e } ∷ []
of_batch url (failed texts) = map (λ t. record { message = []; name = url; err = text t }) texts

module _ {E : Type 0} (svc : Service E) where
  abbrev pub failure : List Call → Call → List (Err (Cause E))
  failure before (send_message url body) = of_send url body (svc.on_send before url body)
  failure before (send_message_batch url entries) = of_batch url (svc.on_batch before url entries)
  failure before (receive_message url) = []
  failure before (delete_message url handle) = []

  -- The failures of the calls in order, each judged by the service's response at that point.
  abbrev pub failures : List Call → List Call → List (Err (Cause E))
  failures before [] = []
  failures before (c ∷ cs) = failure before c ++ failures (before ++ (c ∷ [])) cs

  pub failures-snoc :
      (before cs : List Call) (c : Call)
      → failures before (cs ++ (c ∷ [])) ≡ failures before cs ++ failure (before ++ cs) c
  failures-snoc before [] c = simp append-nil
  failures-snoc before (d ∷ cs) c =
      ap (λ l. failure before d ++ l) (failures-snoc (before ++ (d ∷ [])) cs c)
      ∙ sym (append_assoc (failure before d) _ _)
      ∙ ap (λ h. (failure before d ++ failures (before ++ (d ∷ [])) cs) ++ failure h c)
          (append_assoc before (d ∷ []) cs)

module _ {E : Type 0} (svc : Service E) (name : Bytes) where
  -- The error channel has seen exactly the failures of the calls made.
  abbrev pub IsReported : Publisher E → Type 0
  IsReported s = s.errs ≡ failures svc [] s.calls

  flush_errs :
      (s : Publisher E)
      → (flush svc name s).errs ≡ s.errs ++ failure svc s.calls (send_message_batch name s.accum)
  unfolding flush
  flush_errs s = ground arith

  send_one_errs :
      (msg : Bytes) (s : Publisher E)
      → (send_one svc name msg s).errs ≡ s.errs ++ failure svc s.calls (send_message name msg)
  unfolding send_one
  send_one_errs msg s = ground (arith, append-nil s.errs)

  flush-IsReported : (s : Publisher E) → IsReported s → IsReported (flush svc name s)
  flush-IsReported s r =
      let (calls, _, _, _) = flush_fields svc name s in
      flush_errs s
      ∙ ap (λ l. l ++ failure svc s.calls (send_message_batch name s.accum)) r
      ∙ sym (failures-snoc svc [] s.calls _)
      ∙ ap (failures svc []) (sym calls)

  send_one-IsReported :
      (msg : Bytes) (s : Publisher E) → IsReported s → IsReported (send_one svc name msg s)
  send_one-IsReported msg s r =
      let (calls, _, _) = send_one_fields svc name msg s in
      send_one_errs msg s
      ∙ ap (λ l. l ++ failure svc s.calls (send_message name msg)) r
      ∙ sym (failures-snoc svc [] s.calls _)
      ∙ ap (failures svc []) (sym calls)

module _ {E : Type 0} (svc : Service E) (name : Bytes) (batch_size : ℕ) where
  on_message-IsReported :
      (now : ℕ) (msg : Bytes) (s : Publisher E)
      → IsReported svc name s
      → IsReported svc name (on_message svc name batch_size now msg s)
  unfolding on_message
  on_message-IsReported now msg s r =
      ground (arith, send_one-IsReported svc name msg s r, flush-IsReported svc name t r)
    where
      t : Publisher E
      t = record s { accum = s.accum ++ (record { body = msg; id = now } ∷ []) }

  at_exit-IsReported :
      (s : Publisher E)
      → IsReported svc name s
      → IsReported svc name (at_exit svc name batch_size s)
  unfolding at_exit
  at_exit-IsReported s r = ground (arith, flush-IsReported svc name s r)

  on_timeout-IsReported :
      (s : Publisher E)
      → IsReported svc name s
      → IsReported svc name (on_timeout svc name batch_size s)
  unfolding on_timeout
  on_timeout-IsReported s r = ground (arith, flush-IsReported svc name s r)

  step-IsReported :
      (s t : Publisher E) (e : Event)
      → IsReported svc name s
      → step svc name batch_size s e ≡ some t
      → IsReported svc name t
  step-IsReported s t (client_send m) r h = rw (step-client_send svc name batch_size s t m h).0 r
  step-IsReported s t stop r h = rw (step-stop svc name batch_size s t h).0 r
  step-IsReported s t case_stop r h = elim (step-case_stop svc name batch_size s t h).2 [
    | inl (_, e) ↦ rw e (at_exit-IsReported s r)
    | inr (_, _, _, e) ↦ rw e r
  ]
  step-IsReported s t (case_message now) r h =
      let (m, rest, _, _, e) = step-case_message svc name batch_size s t now h in
      rw e (on_message-IsReported now m (record s { pending = rest }) r)
  step-IsReported s t case_timeout r h =
      rw (step-case_timeout svc name batch_size s t h).0 (on_timeout-IsReported s r)

  run_from-IsReported :
      (s t : Publisher E) (es : List Event)
      → IsReported svc name s
      → run svc name batch_size s es ≡ some t
      → IsReported svc name t
  unfolding run
  run_from-IsReported s t [] r h = ground arith
  run_from-IsReported s t (e ∷ es) r h =
      let (u, now, later) = >>=-eq-some (step svc name batch_size s e) _ h in
      run_from-IsReported u t es (step-IsReported s u e r now) later

  -- In every interleaving the error channel has seen exactly the failures of the calls made, each
  -- once and in order: for a single send its error with the message, for a batch the error of the
  -- request or the text of each entry that failed.
  pub run-IsReported :
      (t : Publisher E) (es : List Event)
      → run svc name batch_size new_publisher es ≡ some t
      → t.errs ≡ failures svc [] t.calls
  unfolding new_publisher
  run-IsReported t es h = run_from-IsReported new_publisher t es refl h
