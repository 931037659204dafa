-- ===== src/Multi/Batching/Mirrors.antt =====
-- queues/sqs/multi_writer.go and queues/sqs/sqs.go: a batcher beside a publisher, case by case.
use vice.Base.{
  ℕ, ◌<◌, ◌≡◌, ◌≢◌, refl, ap, subst, sym, ◌∙◌, inl, inr, true, false, List, [], ◌∷◌, ◌++◌, map,
  some, Bytes, arith, concat_map, concat_map-append, append-nil, map-append, length, length-append,
  length-eq-zero, Bool, ℕ_discrete,
}
use vice.Sqs.Service.{
  Entry, Call, send_message, send_message_batch, receive_message, delete_message, Service,
}
use vice.Sqs.Publisher.{Publisher}
use vice.Sqs.Publisher.Order.{bodies}
use vice.Sqs.Publisher.Bounds.{IsBounded}
use vice.Sqs.Publisher.Cases.{Becomes, MessageCase, TimeoutCase, StopCase}
use vice.Multi.Batching.Order.{bodies_of, accepted}
use vice.Multi.Batching.Moves.{returns, leaves, batches, fills, times_out}
use vice.Multi.Batching.{
  WriterMsg, selecting, returned, Batcher, Event, case_stop, case_message, case_timeout,
  queue_takes, wakes, run,
}

-- The messages that a call of the service carries, if there are any.
abbrev pub not_empty : List Bytes → List (List Bytes)
not_empty [] = []
not_empty (m ∷ ms) = (m ∷ ms) ∷ []

abbrev pub payload_of : Call → List (List Bytes)
payload_of (send_message url body) = (body ∷ []) ∷ []
payload_of (send_message_batch url entries) = not_empty (bodies entries)
payload_of (receive_message url) = []
payload_of (delete_message url handle) = []

abbrev pub payloads : List Call → List (List Bytes)
payloads = concat_map payload_of

-- The batcher is where the publisher is, and has handed over what the publisher has sent.
pub record Mirrors {E : Type 0} (p : Publisher E) (b : Batcher) : Type 0 where
  pub pending_same : b.pending ≡ p.pending
  pub stopping_same : b.stopping ≡ p.stopping
  pub sent_same : map bodies_of b.handed ≡ payloads p.calls
  pub live : p.exited ≡ false → (b.phase ≡ selecting) × (b.accum ≡ p.accum)
  pub gone : p.exited ≡ true → b.phase ≡ returned

length-pos : (l : List Entry) → l ≢ [] → 0 < length l
length-pos [] h = absurd (h refl)
length-pos (x ∷ l) h = omega arith

module _ {E : Type 0} (svc : Service E) (name : Bytes) (batch_size : ℕ) where
  -- A run of the batcher that accepts the same and ends where the publisher is.
  pub record Follows (b : Batcher) (p : Publisher E) (input : List Bytes) : Type 0 where
    pub events : List Event
    pub after : Batcher
    pub ran : run name batch_size b events ≡ some after
    pub same_input : accepted events ≡ input
    pub mirrors : Mirrors p after

  payloads-snoc :
      (calls : List Call) (call : Call)
      → payloads (calls ++ (call ∷ [])) ≡ payloads calls ++ payload_of call
  payloads-snoc calls call = simp (concat_map-append payload_of calls, append-nil)

  handed-snoc :
      (ws : List WriterMsg) (w : WriterMsg)
      → map bodies_of (ws ++ (w ∷ [])) ≡ map bodies_of ws ++ (bodies w.batch ∷ [])
  handed-snoc ws w = simp map-append

  -- One more batch that is not empty, on both sides.
  one_more :
      (ws : List WriterMsg) (calls : List Call) (accum : List Entry) (url : Bytes)
      → 0 < length accum
      → map bodies_of ws ≡ payloads calls
      → map bodies_of (ws ++ (record { batch = accum; name = name } ∷ []))
        ≡ payloads (calls ++ (send_message_batch url accum ∷ []))
  one_more ws calls [] url some_left same = absurd (omega arith)
  one_more ws calls (x ∷ accum) url some_left same =
      handed-snoc ws _
      ∙ ap (λ l. l ++ (bodies (x ∷ accum) ∷ [])) same
      ∙ sym (payloads-snoc calls (send_message_batch url (x ∷ accum)))

  no_more :
      (calls : List Call) (accum : List Entry) (url : Bytes)
      → accum ≡ []
      → payloads (calls ++ (send_message_batch url accum ∷ [])) ≡ payloads calls
  no_more calls accum url empty =
      payloads-snoc calls (send_message_batch url accum)
      ∙ ap (λ l. payloads calls ++ not_empty (bodies l)) empty
      ∙ append-nil (payloads calls)

  pub stays : (p : Publisher E) (b : Batcher) → Mirrors p b → Follows b p []
  unfolding run
  stays p b k = record { events = []; after = b; ran = refl; same_input = refl; mirrors = k }

  -- A publisher that goes on, beside a batcher in its `select`.
  mirror_live :
      (t : Publisher E) (c : Batcher) (pending : List Bytes) (stopping : Bool) (accum : List Entry)
      (calls : List Call)
      → Becomes svc name batch_size t pending stopping accum calls false
      → c.pending ≡ pending
      → c.stopping ≡ stopping
      → c.accum ≡ accum
      → c.phase ≡ selecting
      → map bodies_of c.handed ≡ payloads calls
      → Mirrors t c
  mirror_live t c pending stopping accum calls b p s a free same = record {
    pending_same = p ∙ sym b.pending_is;
    stopping_same = s ∙ sym b.stopping_is;
    sent_same = same ∙ ap payloads (sym b.calls_is);
    live = λ going. (free, a ∙ sym b.accum_is);
    gone = λ exits. cc (exits, b.exited_is);
  }

  -- A publisher that has returned, beside a batcher that has.
  mirror_gone :
      (t : Publisher E) (c : Batcher) (pending : List Bytes) (stopping : Bool) (accum : List Entry)
      (calls : List Call)
      → Becomes svc name batch_size t pending stopping accum calls true
      → c.pending ≡ pending
      → c.stopping ≡ stopping
      → c.phase ≡ returned
      → map bodies_of c.handed ≡ payloads calls
      → Mirrors t c
  mirror_gone t c pending stopping accum calls b p s back same = record {
    pending_same = p ∙ sym b.pending_is;
    stopping_same = s ∙ sym b.stopping_is;
    sent_same = same ∙ ap payloads (sym b.calls_is);
    live = λ going. cc (going, b.exited_is);
    gone = λ exits. back;
  }

  exited_false :
      (p t : Publisher E) {pending : List Bytes} {stopping : Bool} {accum : List Entry}
      {calls : List Call}
      → p.exited ≡ false
      → Becomes svc name batch_size t pending stopping accum calls p.exited
      → Becomes svc name batch_size t pending stopping accum calls false
  exited_false p t going b = record {
    pending_is = b.pending_is;
    stopping_is = b.stopping_is;
    accum_is = b.accum_is;
    calls_is = b.calls_is;
    exited_is = b.exited_is ∙ going;
  }

  one_single :
      (ws : List WriterMsg) (calls : List Call) (accum : List Entry) (m : Bytes) (now : ℕ)
      → accum ≡ []
      → map bodies_of ws ≡ payloads calls
      → map bodies_of (
          ws
          ++ (record { batch = accum ++ (record { body = m; id = now } ∷ []); name = name } ∷ []))
        ≡ payloads (calls ++ (send_message name m ∷ []))
  one_single ws calls accum m now empty same =
      handed-snoc ws _
      ∙ ap (λ l. map bodies_of ws ++ (bodies (l ++ (record { body = m; id = now } ∷ [])) ∷ []))
          empty
      ∙ ap (λ l. l ++ ((m ∷ []) ∷ [])) same
      ∙ sym (payloads-snoc calls (send_message name m))

  pub message-Follows :
      (p t : Publisher E) (b : Batcher) (now : ℕ)
      → IsBounded name batch_size p
      → Mirrors p b
      → p.exited ≡ false
      → MessageCase svc name batch_size now p t
      → Follows b t []
  message-Follows p t b now v k going (m, rest, held, cases) =
      let (free, acc) = k.live going in
      let entry : Entry = record { body = m; id = now } in
      let waits : b.pending ≡ m ∷ rest = k.pending_same ∙ held in
      let w : WriterMsg = record { batch = b.accum ++ (entry ∷ []); name = name } in
      let filled : Batcher = record b {
        pending = rest;
        accum = [];
        handed = b.handed ++ (w ∷ []);
      } in
      let size = ap (λ l. length (l ++ (entry ∷ []))) acc in
      elim cases [
        | inl (off, bec) ↦ record {
          events = case_message now ∷ queue_takes ∷ [];
          after = filled;
          ran = fills name batch_size b free now m rest waits (inl off);
          same_input = refl;
          mirrors =
              mirror_live t filled _ _ _ _ (exited_false p t going bec) refl k.stopping_same
                (sym (v.direct off)) free
                (one_single b.handed p.calls b.accum m now (acc ∙ v.direct off) k.sent_same);
        }
        | inr (inl (on, below, bec)) ↦ record {
          events = case_message now ∷ [];
          after = record b { pending = rest; accum = b.accum ++ (entry ∷ []) };
          ran = batches name batch_size b free now m rest waits on (omega (arith, size, below));
          same_input = refl;
          mirrors =
              mirror_live t (record b { pending = rest; accum = b.accum ++ (entry ∷ []) }) _ _ _ _
                (exited_false p t going bec) refl k.stopping_same (ap (λ l. l ++ (entry ∷ [])) acc)
                free k.sent_same;
        }
        | inr (inr (on, full, bec)) ↦ record {
          events = case_message now ∷ queue_takes ∷ [];
          after = filled;
          ran = fills name batch_size b free now m rest waits (inr (omega (arith, size, full)));
          same_input = refl;
          mirrors =
              mirror_live t filled _ _ _ _ (exited_false p t going bec) refl k.stopping_same refl
                free
                (subst
                  (λ l.
                    map bodies_of
                      (b.handed ++ (record { batch = l ++ (entry ∷ []); name = name } ∷ []))
                    ≡ payloads
                        (p.calls ++ (send_message_batch name (p.accum ++ (entry ∷ [])) ∷ [])))
                  (sym acc)
                  (one_more b.handed p.calls (p.accum ++ (entry ∷ [])) name
                    (omega (arith, length-append p.accum (entry ∷ []))) k.sent_same));
        }
      ]

  pub stop-Follows :
      (p t : Publisher E) (b : Batcher)
      → Mirrors p b
      → p.stopping ≡ true
      → p.exited ≡ false
      → StopCase svc name batch_size p t
      → Follows b t []
  stop-Follows p t b k stopping going (inl (m, rest, held, e)) = rw e (stays p b k)
  stop-Follows p t b k stopping going (inr (inl (empty, none_left, bec))) =
      let (free, acc) = k.live going in
      let c : Batcher = record b { phase = returned } in
      record {
        events = case_stop ∷ [];
        after = c;
        ran =
            returns name batch_size b free (k.stopping_same ∙ stopping) (k.pending_same ∙ empty)
              (acc ∙ none_left);
        same_input = refl;
        mirrors = mirror_gone t c _ _ _ _ bec k.pending_same k.stopping_same refl k.sent_same;
      }
  stop-Follows p t b k stopping going (inr (inr (empty, bec))) =
      let (free, acc) = k.live going in
      let stops = k.stopping_same ∙ stopping in
      let waits = k.pending_same ∙ empty in
      elim (ℕ_discrete (length b.accum) 0) [
        | yes zero_left ↦
            let c : Batcher = record b { phase = returned } in
            let none_left = length-eq-zero b.accum zero_left in
            record {
              events = case_stop ∷ [];
              after = c;
              ran = returns name batch_size b free stops waits none_left;
              same_input = refl;
              mirrors =
                  mirror_gone t c _ _ _ _ bec k.pending_same k.stopping_same refl
                    (k.sent_same ∙ sym (no_more p.calls p.accum name (sym acc ∙ none_left)));
            }
        | no some_left ↦
            let w : WriterMsg = record { batch = b.accum; name = name } in
            let c : Batcher = record b { phase = returned; handed = b.handed ++ (w ∷ []) } in
            record {
              events = case_stop ∷ queue_takes ∷ wakes ∷ [];
              after = c;
              ran = leaves name batch_size b free stops waits (omega arith);
              same_input = refl;
              mirrors = mirror_gone t c _ _ _ _ bec k.pending_same k.stopping_same refl (
                  subst
                    (λ l.
                      map bodies_of (b.handed ++ (w ∷ []))
                      ≡ payloads (p.calls ++ (send_message_batch name l ∷ [])))
                    acc (one_more b.handed p.calls b.accum name (omega arith) k.sent_same));
            }
      ]

  pub timeout-Follows :
      (p t : Publisher E) (b : Batcher)
      → IsBounded name batch_size p
      → Mirrors p b
      → p.exited ≡ false
      → TimeoutCase svc name batch_size p t
      → Follows b t []
  timeout-Follows p t b v k going (inl (empty, e)) = rw e (stays p b k)
  timeout-Follows p t b v k going (inr (some_left, bec)) =
      let (free, acc) = k.live going in
      let w : WriterMsg = record { batch = b.accum; name = name } in
      let c : Batcher = record b { accum = []; handed = b.handed ++ (w ∷ []) } in
      let on : batch_size ≢ 0 = λ off. some_left (v.direct off) in
      let some_here : 0 < length b.accum = length-pos b.accum (λ z. some_left (sym acc ∙ z)) in
      record {
        events = case_timeout ∷ queue_takes ∷ [];
        after = c;
        ran = times_out name batch_size b free on some_here;
        same_input = refl;
        mirrors =
            mirror_live t c _ _ _ _ (exited_false p t going bec) k.pending_same k.stopping_same refl
              free
              (subst
                (λ l.
                  map bodies_of (b.handed ++ (w ∷ []))
                  ≡ payloads (p.calls ++ (send_message_batch name l ∷ [])))
                acc (one_more b.handed p.calls b.accum name some_here k.sent_same));
      }
