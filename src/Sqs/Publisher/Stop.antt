-- ===== src/Sqs/Publisher/Stop.antt =====
-- queues/sqs/sqs.go, `makePublisher`: what happens between `Stop` and the end of the goroutine.
use vice.Base.{
  ℕ, ◌≡◌, ◌≢◌, refl, ap, sym, ◌∙◌, inl, inr, true, false, List, [], ◌∷◌, ◌++◌, some, Bytes, arith,
  Bool-cases, ◌==◌, length, length-eq-zero, >>=-eq-some,
}
use vice.Sqs.Service.{Service}
use vice.Sqs.Publisher.Fields.{flush_fields, on_message_fields, on_timeout_fields}
use vice.Sqs.Publisher.Steps.{
  step-client_send, step-stop, step-case_stop, step-case_message, step-case_timeout,
}
use vice.Sqs.Publisher.Order.{sent, bodies, accepted, run-carried}
use vice.Sqs.Publisher.{
  Publisher, Event, client_send, stop, case_timeout, case_stop, case_message, new_publisher, flush,
  at_exit, step, run,
}

module _ {E : Type 0} (svc : Service E) (name : Bytes) (batch_size : ℕ) where
  at_exit_accum :
      (s : Publisher E)
      → ((at_exit svc name batch_size s).accum ≡ [])
        × ((at_exit svc name batch_size s).pending ≡ s.pending)
  unfolding at_exit
  at_exit_accum s = elim (Bool-cases (length s.accum == 0)) [
    | inl empty ↦
        let nothing = length-eq-zero s.accum (ground arith) in
        ground (arith, flush_fields svc name s)
    | inr full ↦ ground (arith, flush_fields svc name s)
  ]

  -- A goroutine that has returned holds nothing back.
  abbrev pub ExitIsEmpty : Publisher E → Type 0
  ExitIsEmpty s = s.exited ≡ true → s.accum ≡ []

  step-ExitIsEmpty :
      (s t : Publisher E) (e : Event)
      → ExitIsEmpty s
      → step svc name batch_size s e ≡ some t
      → ExitIsEmpty t
  step-ExitIsEmpty s t (client_send m) v h exit =
      let e = (step-client_send svc name batch_size s t m h).0 in ground (arith, e)
  step-ExitIsEmpty s t stop v h exit =
      let e = (step-stop svc name batch_size s t h).0 in ground (arith, e)
  step-ExitIsEmpty s t case_stop v h exit = elim (step-case_stop svc name batch_size s t h).2 [
    | inl (_, e) ↦ ap (λ (u : Publisher E). u.accum) e ∙ (at_exit_accum s).0
    | inr (_, _, _, e) ↦ rw e (v (rw e at exit))
  ]
  step-ExitIsEmpty s t (case_message now) v h exit =
      let (m, rest, _, going, e) = step-case_message svc name batch_size s t now h in
      absurd (
        cc (
          going,
          exit,
          ap (λ (u : Publisher E). u.exited) e,
          (on_message_fields svc name batch_size now m (record s { pending = rest })).2,
        ))
  step-ExitIsEmpty s t case_timeout v h exit =
      let (e, going) = step-case_timeout svc name batch_size s t h in
      absurd (
        cc (
          going,
          exit,
          ap (λ (u : Publisher E). u.exited) e,
          (on_timeout_fields svc name batch_size s).2,
        ))

  run_from-ExitIsEmpty :
      (s t : Publisher E) (es : List Event)
      → ExitIsEmpty s
      → run svc name batch_size s es ≡ some t
      → ExitIsEmpty t
  unfolding run
  run_from-ExitIsEmpty s t [] v h = ground arith
  run_from-ExitIsEmpty s t (e ∷ es) v h =
      let (u, now, later) = >>=-eq-some (step svc name batch_size s e) _ h in
      run_from-ExitIsEmpty u t es (step-ExitIsEmpty s u e v now) later

  -- At any time after the goroutine has returned, what it handed to the service, in order, and what
  -- the channel has accepted since then make up all that the channel ever accepted.
  pub exited_complete :
      (t : Publisher E) (es : List Event)
      → run svc name batch_size new_publisher es ≡ some t
      → t.exited ≡ true
      → sent t.calls ++ t.pending ≡ accepted es
  unfolding new_publisher
  exited_complete t es h exit =
      let empty = run_from-ExitIsEmpty new_publisher t es (λ _. refl) h exit in
      ap (λ l. sent t.calls ++ (bodies l ++ t.pending)) (sym empty)
      ∙ run-carried svc name batch_size t es h

  pub run-snoc :
      (s t u : Publisher E) (es : List Event) (e : Event)
      → run svc name batch_size s es ≡ some t
      → step svc name batch_size t e ≡ some u
      → run svc name batch_size s (es ++ (e ∷ [])) ≡ some u
  unfolding run
  run-snoc s t u [] e h st = ground arith
  run-snoc s t u (d ∷ es) e h st =
      let (v, now, later) = >>=-eq-some (step svc name batch_size s d) _ h in
      rw now (run-snoc v t u es e later st)

  at_exit_stopping : (s : Publisher E) → (at_exit svc name batch_size s).stopping ≡ s.stopping
  unfolding at_exit flush
  at_exit_stopping s = ground arith

  -- Only the signal to stop changes whether the goroutine sees it.
  pub step-stopping :
      (s t : Publisher E) (e : Event)
      → e ≢ stop
      → step svc name batch_size s e ≡ some t
      → t.stopping ≡ s.stopping
  step-stopping s t (client_send m) n h =
      ap (λ (u : Publisher E). u.stopping) (step-client_send svc name batch_size s t m h).0
  step-stopping s t stop n h = absurd (n refl)
  step-stopping s t case_stop n h = elim (step-case_stop svc name batch_size s t h).2 [
    | inl (_, e) ↦ ap (λ (u : Publisher E). u.stopping) e ∙ at_exit_stopping s
    | inr (_, _, _, e) ↦ ap (λ (u : Publisher E). u.stopping) e
  ]
  step-stopping s t (case_message now) n h =
      let (m, rest, _, _, e) = step-case_message svc name batch_size s t now h in
      ap (λ (u : Publisher E). u.stopping) e
      ∙ (on_message_fields svc name batch_size now m (record s { pending = rest })).1
  step-stopping s t case_timeout n h =
      ap (λ (u : Publisher E). u.stopping) (step-case_timeout svc name batch_size s t h).0
      ∙ (on_timeout_fields svc name batch_size s).1

  pub signal_step :
      (s : Publisher E)
      → s.stopping ≡ false
      → step svc name batch_size s stop ≡ some (record s { stopping = true })
  unfolding step
  signal_step s open_chan = ground arith
