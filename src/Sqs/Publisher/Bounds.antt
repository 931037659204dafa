-- ===== src/Sqs/Publisher/Bounds.antt =====
-- queues/sqs/sqs.go, `makePublisher`: how much the goroutine holds back and hands over at a time.
use vice.Base.{
  ℕ, ◌≤◌, ◌<◌, ◌≡◌, ◌≢◌, refl, inl, inr, List, [], ◌∷◌, ◌++◌, some, Bytes, arith, length,
  length-append, All, All-append, Bool-cases, ℕ_discrete, ap, true, false, ◌==◌, >>=-eq-some,
}
use vice.Sqs.Service.{
  Entry, Call, send_message, send_message_batch, receive_message, delete_message, Service,
}
use vice.Sqs.Publisher.Fields.{flush_fields, send_one_fields}
use vice.Sqs.Publisher.Steps.{step-case_stop, step-case_message}
use vice.Sqs.Publisher.{
  Publisher, Event, client_send, stop, case_stop, case_message, case_timeout, new_publisher, flush,
  at_exit, send_one, on_message, on_timeout, step, run,
}

module _ (name : Bytes) (batch_size : ℕ) where
  -- Every call goes to the queue of this name. Without batches it sends one message; with them,
  -- at most a full batch.
  abbrev pub CallFits : Call → Type 0
  CallFits (send_message url body) = (url ≡ name) × (batch_size ≡ 0)
  CallFits (send_message_batch url entries) =
      (url ≡ name) × (batch_size ≢ 0) × (length entries ≤ batch_size)
  CallFits (receive_message url) = ⊥
  CallFits (delete_message url handle) = ⊥

  -- What the goroutine holds back is less than a batch, and nothing without batches.
  pub record IsBounded {E : Type 0} (s : Publisher E) : Type 0 where
    pub direct : batch_size ≡ 0 → s.accum ≡ []
    pub partial : batch_size ≢ 0 → length s.accum < batch_size
    pub calls_fit : All CallFits s.calls

module _ {E : Type 0} (svc : Service E) (name : Bytes) (batch_size : ℕ) where
  flush-IsBounded :
      (s : Publisher E)
      → batch_size ≢ 0
      → length s.accum ≤ batch_size
      → All (CallFits name batch_size) s.calls
      → IsBounded name batch_size (flush svc name s)
  flush-IsBounded s on fits calls_fit =
      let (calls, _, accum, _) = flush_fields svc name s in
      record {
        direct = λ off. absurd (on off);
        partial = λ _. rw accum (omega arith);
        calls_fit = rw calls (All-append _ s.calls _ calls_fit ((refl, on, fits), tt));
      }

  send_one-IsBounded :
      (msg : Bytes) (s : Publisher E)
      → batch_size ≡ 0
      → IsBounded name batch_size s
      → IsBounded name batch_size (send_one svc name msg s)
  send_one-IsBounded msg s off v =
      let (calls, _, accum) = send_one_fields svc name msg s in
      record {
        direct = λ _. rw accum (v.direct off);
        partial = λ on. absurd (on off);
        calls_fit = rw calls (All-append _ s.calls _ v.calls_fit ((refl, off), tt));
      }

  held : (s : Publisher E) → IsBounded name batch_size s → length s.accum ≤ batch_size
  held s v = elim (ℕ_discrete batch_size 0) [
    | yes off ↦ omega (arith, ap (length {A = Entry}) (v.direct off))
    | no on ↦ omega (arith, v.partial on)
  ]

  on_message-IsBounded :
      (now : ℕ) (msg : Bytes) (s : Publisher E)
      → IsBounded name batch_size s
      → IsBounded name batch_size (on_message svc name batch_size now msg s)
  unfolding on_message
  on_message-IsBounded now msg s v = elim (ℕ_discrete batch_size 0) [
    | yes off ↦ ground (arith, send_one-IsBounded msg s off v)
    | no on ↦ ground (arith, flush-IsBounded t on (room on) v.calls_fit, waits on)
  ]
    where
      t : Publisher E
      t = record s { accum = s.accum ++ (record { body = msg; id = now } ∷ []) }

      room : batch_size ≢ 0 → length t.accum ≤ batch_size
      room on =
          omega
            (arith, v.partial on, length-append {0} s.accum (record { body = msg; id = now } ∷ []))

      waits : batch_size ≢ 0 → length t.accum < batch_size → IsBounded name batch_size t
      waits on few = record {
        direct = λ off. absurd (on off);
        partial = λ _. few;
        calls_fit = v.calls_fit;
      }

  at_exit-IsBounded :
      (s : Publisher E)
      → IsBounded name batch_size s
      → IsBounded name batch_size (at_exit svc name batch_size s)
  unfolding at_exit
  at_exit-IsBounded s v = elim (ℕ_discrete batch_size 0) [
    | yes off ↦ ground (arith, v.direct off)
    | no on ↦
        let no_return : (batch_size == 0) ≡ false = ground arith in
        rw no_return (flush-IsBounded s on (held s v) v.calls_fit)
  ]

  on_timeout-IsBounded :
      (s : Publisher E)
      → IsBounded name batch_size s
      → IsBounded name batch_size (on_timeout svc name batch_size s)
  unfolding on_timeout
  on_timeout-IsBounded s v = elim (Bool-cases (length s.accum == 0)) [
    | inl empty ↦ rw empty v
    | inr full ↦
        rw full (flush-IsBounded s (λ off. cc (rw (v.direct off) at full)) (held s v) v.calls_fit)
  ]

  exit-IsBounded :
      (s : Publisher E)
      → IsBounded name batch_size s
      → IsBounded name batch_size (record (at_exit svc name batch_size s) { exited = true })
  exit-IsBounded s v =
      let w = at_exit-IsBounded s v in
      record { direct = w.direct; partial = w.partial; calls_fit = w.calls_fit }

  -- Every event keeps the bounds: what the goroutine holds back is less than a batch, and each call
  -- goes to its queue with at most a full batch, or with one message if batches are off.
  pub step-IsBounded :
      (s t : Publisher E) (e : Event)
      → IsBounded name batch_size s
      → step svc name batch_size s e ≡ some t
      → IsBounded name batch_size t
  unfolding step
  step-IsBounded s t (client_send m) v h = ground arith
  step-IsBounded s t stop v h = ground arith
  step-IsBounded s t case_stop v h = elim (step-case_stop svc name batch_size s t h).2 [
    | inl (_, e) ↦ rw e (exit-IsBounded s v)
    | inr (_, _, _, e) ↦ rw e v
  ]
  step-IsBounded s t (case_message now) v h =
      let (m, rest, _, _, e) = step-case_message svc name batch_size s t now h in
      rw e (
        on_message-IsBounded now m (record s { pending = rest })
          (record { direct = v.direct; partial = v.partial; calls_fit = v.calls_fit }))
  step-IsBounded s t case_timeout v h = ground (arith, on_timeout-IsBounded s v)

  pub new_publisher-IsBounded : IsBounded name batch_size (new_publisher {E = E})
  unfolding new_publisher
  new_publisher-IsBounded = record {
    direct = λ _. refl;
    partial = λ on. omega (arith, on);
    calls_fit = tt;
  }

  run_from-IsBounded :
      (s t : Publisher E) (es : List Event)
      → IsBounded name batch_size s
      → run svc name batch_size s es ≡ some t
      → IsBounded name batch_size t
  unfolding run
  run_from-IsBounded s t [] v h = ground arith
  run_from-IsBounded s t (e ∷ es) v h =
      let (u, now, later) = >>=-eq-some (step svc name batch_size s e) _ h in
      run_from-IsBounded u t es (step-IsBounded s u e v now) later

  -- In every interleaving the goroutine holds back less than a batch, and nothing if batches are
  -- off; each of its calls goes to its queue, a batch with at most `batch_size` entries, and a
  -- single message only if batches are off.
  pub run-IsBounded :
      (t : Publisher E) (es : List Event)
      → run svc name batch_size new_publisher es ≡ some t
      → IsBounded name batch_size t
  run-IsBounded t es h = run_from-IsBounded new_publisher t es new_publisher-IsBounded h
