-- ===== src/Sqs/Publisher/Order.antt =====
-- queues/sqs/sqs.go, `makePublisher`: no message is lost, repeated or overtaken on the way from the
-- send channel to the service.
use vice.Base.{
  ℕ, ◌≡◌, ap, sym, ◌∙◌, inl, inr, List, [], ◌∷◌, ◌++◌, map, some, Bytes, arith, concat_map,
  concat_map-append, append_assoc, append-nil, map-append, ◌==◌, Bool-cases, >>=-eq-some,
}
use vice.Sqs.Service.{
  Entry, Call, send_message, send_message_batch, receive_message, delete_message, Service,
}
use vice.Sqs.Publisher.Fields.{flush_fields, send_one_fields}
use vice.Sqs.Publisher.Bounds.{IsBounded, new_publisher-IsBounded, step-IsBounded}
use vice.Sqs.Publisher.Steps.{
  step-client_send, step-stop, step-case_stop, step-case_message, step-case_timeout,
}
use vice.Sqs.Publisher.{
  Publisher, Event, client_send, stop, case_stop, case_message, case_timeout, new_publisher, flush,
  at_exit, send_one, on_message, on_timeout, step, run,
}

abbrev pub bodies : List Entry → List Bytes
bodies = map (λ e. e.body)

-- The messages that a call hands to the service.
abbrev pub sent_by : Call → List Bytes
sent_by (send_message url body) = body ∷ []
sent_by (send_message_batch url entries) = bodies entries
sent_by (receive_message url) = []
sent_by (delete_message url handle) = []

abbrev pub sent : List Call → List Bytes
sent = concat_map sent_by

-- What the send channel accepts at an event.
abbrev pub accepted_by : Event → List Bytes
accepted_by (client_send m) = m ∷ []
accepted_by _ = []

abbrev pub accepted : List Event → List Bytes
accepted = concat_map accepted_by

-- Everything on its way, the oldest first.
abbrev pub carried : {E : Type 0} → Publisher E → List Bytes
carried s = sent s.calls ++ (bodies s.accum ++ s.pending)

module _ {E : Type 0} (svc : Service E) (name : Bytes) where
  flush-carried : (s : Publisher E) → carried (flush svc name s) ≡ carried s
  flush-carried s =
      let (calls, pending, accum, _) = flush_fields svc name s in
      rw (calls, pending, accum)
        (simp (concat_map-append sent_by s.calls, append_assoc, append-nil))

  send_one-carried :
      (msg : Bytes) (s : Publisher E)
      → s.accum ≡ []
      → carried (send_one svc name msg s) ≡ sent s.calls ++ (bodies s.accum ++ (msg ∷ s.pending))
  send_one-carried msg s empty =
      let (calls, pending, accum) = send_one_fields svc name msg s in
      rw (calls, pending, accum, empty) (simp (concat_map-append sent_by s.calls, append_assoc))

module _ {E : Type 0} (svc : Service E) (name : Bytes) (batch_size : ℕ) where
  on_message-carried :
      (now : ℕ) (msg : Bytes) (s : Publisher E)
      → (batch_size ≡ 0 → s.accum ≡ [])
      → carried (on_message svc name batch_size now msg s)
        ≡ sent s.calls ++ (bodies s.accum ++ (msg ∷ s.pending))
  unfolding on_message
  on_message-carried now msg s direct = elim (Bool-cases (batch_size == 0)) [
    | inl off ↦ rw off (send_one-carried svc name msg s (direct (ground arith)))
    | inr on ↦ rw on (ground (arith, flush-carried svc name t, held))
  ]
    where
      t : Publisher E
      t = record s { accum = s.accum ++ (record { body = msg; id = now } ∷ []) }

      held : carried t ≡ sent s.calls ++ (bodies s.accum ++ (msg ∷ s.pending))
      held = simp (map-append, append_assoc)

  pub at_exit-carried : (s : Publisher E) → carried (at_exit svc name batch_size s) ≡ carried s
  unfolding at_exit
  at_exit-carried s = ground (arith, flush-carried svc name s)

  on_timeout-carried : (s : Publisher E) → carried (on_timeout svc name batch_size s) ≡ carried s
  unfolding on_timeout
  on_timeout-carried s = ground (arith, flush-carried svc name s)

  step-carried :
      (s t : Publisher E) (e : Event)
      → IsBounded name batch_size s
      → step svc name batch_size s e ≡ some t
      → carried t ≡ carried s ++ accepted_by e
  step-carried s t (client_send m) v h =
      ap carried (step-client_send svc name batch_size s t m h).0 ∙ simp append_assoc
  step-carried s t stop v h =
      ap carried (step-stop svc name batch_size s t h).0 ∙ sym (append-nil _)
  step-carried s t case_stop v h = elim (step-case_stop svc name batch_size s t h).2 [
    | inl (_, e) ↦ ap carried e ∙ at_exit-carried s ∙ sym (append-nil _)
    | inr (_, _, _, e) ↦ ap carried e ∙ sym (append-nil _)
  ]
  step-carried s t (case_message now) v h =
      let (m, rest, held, _, e) = step-case_message svc name batch_size s t now h in
      ap carried e
      ∙ on_message-carried now m (record s { pending = rest }) v.direct
      ∙ ap (λ l. sent s.calls ++ (bodies s.accum ++ l)) (sym held)
      ∙ sym (append-nil _)
  step-carried s t case_timeout v h =
      ap carried (step-case_timeout svc name batch_size s t h).0
      ∙ on_timeout-carried s
      ∙ sym (append-nil _)

  run_from-carried :
      (s t : Publisher E) (es : List Event)
      → IsBounded name batch_size s
      → run svc name batch_size s es ≡ some t
      → carried t ≡ carried s ++ accepted es
  unfolding run
  run_from-carried s t [] v h = ground (arith, append-nil (carried s))
  run_from-carried s t (e ∷ es) v h =
      let (u, now, later) = >>=-eq-some (step svc name batch_size s e) _ h in
      run_from-carried u t es (step-IsBounded svc name batch_size s u e v now) later
      ∙ ap (λ l. l ++ accepted es) (step-carried s u e v now)
      ∙ append_assoc (carried s) (accepted_by e) (accepted es)

  -- In every interleaving, the messages handed to the service so far, in the order of the calls,
  -- then those that wait in the batch, then those in the channel's buffer, are exactly the messages
  -- that the channel has accepted, in the order in which it accepted them.
  pub run-carried :
      (t : Publisher E) (es : List Event)
      → run svc name batch_size new_publisher es ≡ some t
      → sent t.calls ++ (bodies t.accum ++ t.pending) ≡ accepted es
  unfolding new_publisher
  run-carried t es h =
      run_from-carried new_publisher t es (new_publisher-IsBounded svc name batch_size) h
