-- ===== src/Sqs/Publisher/Cases.antt =====
-- queues/sqs/sqs.go, `makePublisher`: the fields of the goroutine after each case of its `select`.
use vice.Base.{
  ℕ, ◌<◌, ◌≤◌, ◌≡◌, ◌≢◌, refl, ◌⊎◌, inl, inr, Bool, true, false, ◌&&◌, List, [], ◌∷◌, ◌++◌, some,
  Bytes, arith, length, length-eq-zero, ltb, ◌==◌, Bool-cases,
}
use vice.Sqs.Service.{Entry, Call, send_message, send_message_batch, Service}
use vice.Sqs.Publisher.Steps.{step-case_stop, step-case_message, step-case_timeout}
use vice.Sqs.Publisher.{
  Publisher, case_stop, case_message, case_timeout, at_exit, on_message, on_timeout, flush,
  send_one, step,
}

module _ {E : Type 0} (svc : Service E) (name : Bytes) (batch_size : ℕ) where
  -- The fields that the batching depends on.
  pub record Becomes (t : Publisher E) (pending : List Bytes) (stopping : Bool) (accum : List Entry)
      (calls : List Call) (exited : Bool) : Type 0 where
    pub pending_is : t.pending ≡ pending
    pub stopping_is : t.stopping ≡ stopping
    pub accum_is : t.accum ≡ accum
    pub calls_is : t.calls ≡ calls
    pub exited_is : t.exited ≡ exited

  flush-Becomes :
      (s : Publisher E)
      → Becomes
          (flush svc name s)
          s.pending
          s.stopping
          []
          (s.calls ++ (send_message_batch name s.accum ∷ []))
          s.exited
  unfolding flush
  flush-Becomes s = ground arith

  send_one-Becomes :
      (msg : Bytes) (s : Publisher E)
      → Becomes
          (send_one svc name msg s)
          s.pending
          s.stopping
          s.accum
          (s.calls ++ (send_message name msg ∷ []))
          s.exited
  unfolding send_one
  send_one-Becomes msg s = ground arith

  -- A message is sent alone, waits in the batch, or fills it.
  abbrev pub MessageCase : ℕ → (s t : Publisher E) → Type 0
  MessageCase now s t =
      (m : Bytes) × (rest : List Bytes) × (s.pending ≡ m ∷ rest)
      × (let accum : List Entry = s.accum ++ (record { body = m; id = now } ∷ []) in
          ((batch_size ≡ 0)
            × Becomes t rest s.stopping s.accum (s.calls ++ (send_message name m ∷ [])) s.exited)
          ⊎ (((batch_size ≢ 0)
                × (length accum < batch_size)
                × Becomes t rest s.stopping accum s.calls s.exited)
              ⊎ ((batch_size ≢ 0)
                  × (batch_size ≤ length accum)
                  × Becomes t rest s.stopping [] (s.calls ++ (send_message_batch name accum ∷ []))
                      s.exited)))

  on_message-cases :
      (now : ℕ) (m : Bytes) (rest : List Bytes) (s : Publisher E)
      → s.pending ≡ m ∷ rest
      → MessageCase now s (on_message svc name batch_size now m (record s { pending = rest }))
  unfolding on_message
  on_message-cases now m rest s held =
      let accum : List Entry = s.accum ++ (record { body = m; id = now } ∷ []) in
      let t : Publisher E = record s { pending = rest; accum = accum } in
      (
        m,
        rest,
        held,
        elim (Bool-cases (batch_size == 0)) [
          | inl off ↦ inl (ground arith, rw off (send_one-Becomes m (record s { pending = rest })))
          | inr on ↦ elim (Bool-cases (ltb (length accum) batch_size)) [
            | inl below ↦ inr (inl (ground arith, ground arith, rw (on, below) (ground arith)))
            | inr full ↦ inr (inr (ground arith, ground arith, rw (on, full) (flush-Becomes t)))
          ]
        ],
      )

  pub case_message-cases :
      (s t : Publisher E) (now : ℕ)
      → step svc name batch_size s (case_message now) ≡ some t
      → (s.exited ≡ false) × MessageCase now s t
  case_message-cases s t now h =
      let (m, rest, held, going, e) = step-case_message svc name batch_size s t now h in
      (going, rw e (on_message-cases now m rest s held))

  -- A batch that waits is sent after the interval.
  abbrev pub TimeoutCase : (s t : Publisher E) → Type 0
  TimeoutCase s t =
      ((s.accum ≡ []) × (t ≡ s))
      ⊎ ((s.accum ≢ [])
          × Becomes t s.pending s.stopping [] (s.calls ++ (send_message_batch name s.accum ∷ []))
              s.exited)

  on_timeout-cases : (s : Publisher E) → TimeoutCase s (on_timeout svc name batch_size s)
  unfolding on_timeout
  on_timeout-cases s = elim (Bool-cases (length s.accum == 0)) [
    | inl empty ↦
        let e : s.accum ≡ [] = length-eq-zero s.accum (ground arith) in
        inl (e, ground (arith, empty))
    | inr some_left ↦ inr ((λ z. ground (arith, z, some_left)), rw some_left (flush-Becomes s))
  ]

  pub case_timeout-cases :
      (s t : Publisher E)
      → step svc name batch_size s case_timeout ≡ some t
      → (s.exited ≡ false) × TimeoutCase s t
  case_timeout-cases s t h =
      let (e, going) = step-case_timeout svc name batch_size s t h in
      (going, rw e (on_timeout-cases s))

  -- The goroutine goes on while messages wait; otherwise it returns, after a last batch unless
  -- there are no batches.
  abbrev pub StopCase : (s t : Publisher E) → Type 0
  StopCase s t =
      ((m : Bytes) × (rest : List Bytes) × (s.pending ≡ m ∷ rest) × (t ≡ s))
      ⊎ (((s.pending ≡ []) × (s.accum ≡ []) × Becomes t s.pending s.stopping s.accum s.calls true)
          ⊎ ((s.pending ≡ [])
              × Becomes t s.pending s.stopping []
                  (s.calls ++ (send_message_batch name s.accum ∷ [])) true))

  at_exit-cases :
      (s : Publisher E)
      → s.pending ≡ []
      → StopCase s (record (at_exit svc name batch_size s) { exited = true })
  unfolding at_exit
  at_exit-cases s empty = elim (Bool-cases ((batch_size == 0) && (length s.accum == 0))) [
    | inl nothing ↦
        let e : s.accum ≡ [] = length-eq-zero s.accum (ground arith) in
        inr (inl (empty, e, rw nothing (ground arith)))
    | inr something ↦
        let b = flush-Becomes s in
        inr (
          inr (
            empty,
            rw something (record {
              pending_is = b.pending_is;
              stopping_is = b.stopping_is;
              accum_is = b.accum_is;
              calls_is = b.calls_is;
              exited_is = refl;
            }),
          ))
  ]

  pub case_stop-cases :
      (s t : Publisher E)
      → step svc name batch_size s case_stop ≡ some t
      → (s.stopping ≡ true) × (s.exited ≡ false) × StopCase s t
  case_stop-cases s t h =
      let (stops, going, cases) = step-case_stop svc name batch_size s t h in
      (
        stops,
        going,
        elim cases [
          | inl (empty, e) ↦ rw e (at_exit-cases s empty)
          | inr (m, rest, held, e) ↦ inl (m, rest, held, e)
        ],
      )
