-- ===== src/Multi/Batching/Moves.antt =====
-- queues/sqs/multi_writer.go, `makePublishers`: short runs of the goroutine, from its `select` back
-- to it or to the end, with a dispatcher that takes at once what is handed over.
use vice.Base.{
  ℕ, ◌≤◌, ◌<◌, ◌≡◌, ◌≢◌, subst, sym, >>=-eq-some, ◌⊎◌, inl, inr, true, false, List, [], ◌∷◌, ◌++◌,
  some, Bytes, arith, length,
}
use mathlib.Core.Option.{some-injective}
use vice.Multi.Batching.{
  selecting, returned, Batcher, Event, client_send, stop, case_stop, case_message, case_timeout,
  queue_takes, wakes, chan_size, step, run,
}

module _ (name : Bytes) (batch_size : ℕ) (b : Batcher) where
  pub sends :
      (m : Bytes)
      → length b.pending < chan_size
      → run name batch_size b (client_send m ∷ [])
        ≡ some (record b { pending = b.pending ++ (m ∷ []) })
  unfolding run
  sends m room = ground arith

  pub stops :
      b.stopping ≡ false → run name batch_size b (stop ∷ []) ≡ some (record b { stopping = true })
  unfolding run
  stops open_chan = ground arith

  module _ (free : b.phase ≡ selecting) where
    pub returns :
        b.stopping ≡ true
        → b.pending ≡ []
        → b.accum ≡ []
        → run name batch_size b (case_stop ∷ []) ≡ some (record b { phase = returned })
    unfolding run
    returns stopping empty none_left = ground arith

    pub leaves :
        b.stopping ≡ true
        → b.pending ≡ []
        → 0 < length b.accum
        → run name batch_size b (case_stop ∷ queue_takes ∷ wakes ∷ [])
          ≡ some (record b {
            phase = returned;
            handed = b.handed ++ (record { batch = b.accum; name = name } ∷ []);
          })
    unfolding run
    leaves stopping empty some_left = ground arith

    pub batches :
        (now : ℕ) (m : Bytes) (rest : List Bytes)
        → b.pending ≡ m ∷ rest
        → batch_size ≢ 0
        → length (b.accum ++ (record { body = m; id = now } ∷ [])) < batch_size
        → run name batch_size b (case_message now ∷ [])
          ≡ some
              (record b { pending = rest; accum = b.accum ++ (record { body = m; id = now } ∷ []) })
    unfolding run
    batches now m rest held on below = ground arith

    pub fills :
        (now : ℕ) (m : Bytes) (rest : List Bytes)
        → b.pending ≡ m ∷ rest
        → (batch_size ≡ 0) ⊎ (batch_size ≤ length (b.accum ++ (record { body = m; id = now } ∷ [])))
        → run name batch_size b (case_message now ∷ queue_takes ∷ [])
          ≡ some (record b {
            pending = rest;
            accum = [];
            handed =
                b.handed
                ++ (record { batch = b.accum ++ (record { body = m; id = now } ∷ []); name = name }
                    ∷ []);
          })
    unfolding run
    fills now m rest held (inl off) = ground arith
    fills now m rest held (inr full) = ground arith

    pub times_out :
        batch_size ≢ 0
        → 0 < length b.accum
        → run name batch_size b (case_timeout ∷ queue_takes ∷ [])
          ≡ some (record b {
            accum = [];
            handed = b.handed ++ (record { batch = b.accum; name = name } ∷ []);
          })
    unfolding run
    times_out on some_left = ground arith

pub run-append :
    (name : Bytes) (batch_size : ℕ) (b c d : Batcher) (es fs : List Event)
    → run name batch_size b es ≡ some c
    → run name batch_size c fs ≡ some d
    → run name batch_size b (es ++ fs) ≡ some d
unfolding run
run-append name batch_size b c d [] fs first later =
    subst (λ u. run name batch_size u fs ≡ some d) (sym (some-injective _ _ first)) later
run-append name batch_size b c d (e ∷ es) fs first later =
    let (u, now, rest) = >>=-eq-some (step name batch_size b e) _ first in
    rw now (run-append name batch_size u c d es fs rest later)
