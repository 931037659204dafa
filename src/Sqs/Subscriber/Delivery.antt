-- ===== src/Sqs/Subscriber/Delivery.antt =====
-- queues/sqs/sqs.go, `makeSubscriber`: what becomes of the messages that a request returns.
use vice.Base.{
  ◌+◌, ◌≡◌, refl, ap, sym, ◌∙◌, inl, inr, true, false, Bool, List, [], ◌∷◌, ◌++◌, map, Option, none,
  some, Bytes, arith, length, length-append, append_assoc, append-nil, Option-cases,
}
use vice.Sqs.Service.{Message, Call, receive_message, delete_message, Service, messages}
use vice.Sqs.Subscriber.{Subscriber, receive_err, on_received, on_all_received, poll, round, rounds}

-- The deletions of the messages that have a receipt handle.
abbrev pub delete_for : Bytes → Option Bytes → List Call
delete_for name none = []
delete_for name (some handle) = delete_message name handle ∷ []

abbrev pub deletes : Bytes → List Message → List Call
deletes name [] = []
deletes name (m ∷ ms) = delete_for name m.receipt_handle ++ deletes name ms

-- A list left when some elements of another are dropped.
pub data Subsequence {A : Type 0} : List A → List A → Type 0 where
  done : Subsequence [] []
  keep : {x : A} {xs ys : List A} → Subsequence xs ys → Subsequence (x ∷ xs) (x ∷ ys)
  drop : {x : A} {xs ys : List A} → Subsequence xs ys → Subsequence xs (x ∷ ys)

abbrev pub message_bodies : List Message → List Bytes
message_bodies = map (λ m. m.body)

-- The messages of one answer, from `s` to `t`: each one with a handle is deleted, in order; what is
-- delivered are some of the bodies, in order; and for each other one there is an error.
pub record Accounts {E : Type 0} (name : Bytes) (ms : List Message) (s t : Subscriber E)
    : Type 0 where
  pub fresh : List Bytes
  pub deleted : t.calls ≡ s.calls ++ deletes name ms
  pub delivers : t.delivered ≡ s.delivered ++ fresh
  pub in_order : Subsequence fresh (message_bodies ms)
  pub counted : length t.errs + length fresh ≡ length s.errs + length ms
  pub running : t.exited ≡ s.exited

module _ {E : Type 0} (svc : Service E) (name : Bytes) where
  on_received-Accounts :
      (m : Message) (s : Subscriber E) → Accounts name (m ∷ []) s (on_received svc name m s)
  unfolding on_received
  on_received-Accounts m s = elim (Option-cases m.receipt_handle) [
    | inl no_handle ↦ record {
      fresh = m.body ∷ [];
      deleted = ground (arith, append-nil s.calls);
      delivers = ground arith;
      in_order = keep done;
      counted = ground arith;
      running = ground arith;
    }
    | inr (h, handle) ↦ elim (Option-cases (svc.on_delete s.calls name h)) [
      | inl gone ↦ record {
        fresh = m.body ∷ [];
        deleted = ground arith;
        delivers = ground arith;
        in_order = keep done;
        counted = ground arith;
        running = ground arith;
      }
      | inr (e, refused) ↦ record {
        fresh = [];
        deleted = ground arith;
        delivers = ground (arith, append-nil s.delivered);
        in_order = drop done;
        counted = ground (arith, length-append s.errs (receive_err svc name e ∷ []));
        running = ground arith;
      }
    ]
  ]

  Subsequence-append :
      {A : Type 0} {xs xs' ys ys' : List A}
      → Subsequence xs ys
      → Subsequence xs' ys'
      → Subsequence (xs ++ xs') (ys ++ ys')
  Subsequence-append done t = t
  Subsequence-append (keep s) t = keep (Subsequence-append s t)
  Subsequence-append (drop s) t = drop (Subsequence-append s t)

  Accounts-join :
      (m : Message) (ms : List Message) (s t u : Subscriber E)
      → Accounts name (m ∷ []) s t
      → Accounts name ms t u
      → Accounts name (m ∷ ms) s u
  Accounts-join m ms s t u a b = record {
    fresh = a.fresh ++ b.fresh;
    deleted =
        b.deleted ∙ ap (λ l. l ++ deletes name ms) a.deleted ∙ simp (append_assoc, append-nil);
    delivers = b.delivers ∙ ap (λ l. l ++ b.fresh) a.delivers ∙ append_assoc s.delivered _ _;
    in_order = Subsequence-append a.in_order b.in_order;
    counted = omega (arith, a.counted, b.counted, length-append {0} a.fresh b.fresh);
    running = b.running ∙ a.running;
  }

  on_all_received-Accounts :
      (ms : List Message) (s : Subscriber E) → Accounts name ms s (on_all_received svc name ms s)
  unfolding on_all_received
  on_all_received-Accounts [] s = record {
    fresh = [];
    deleted = sym (append-nil _);
    delivers = sym (append-nil _);
    in_order = done;
    counted = omega arith;
    running = refl;
  }
  on_all_received-Accounts (m ∷ ms) s =
      Accounts-join m ms s _ _ (on_received-Accounts m s)
        (on_all_received-Accounts ms (on_received svc name m s))

  -- A poll that the service answers makes one request, then deletes each message that has a receipt
  -- handle; it delivers the bodies in order, leaving out exactly as many as there are new errors.
  pub poll-Accounts :
      (ms : List Message) (s : Subscriber E)
      → svc.on_receive s.calls name ≡ messages ms
      → Accounts name ms
          (record s { calls = s.calls ++ (receive_message name ∷ []) })
          (poll svc name s)
  unfolding poll
  poll-Accounts ms s answer = rw (answer, poll) (on_all_received-Accounts ms _)

  round_exited :
      (stopped : Bool) (t : Subscriber E) → t.exited ≡ true → round svc name stopped t ≡ t
  unfolding round
  round_exited stopped t gone = ground arith

  round_last :
      (t : Subscriber E) → t.exited ≡ false → round svc name true t ≡ record t { exited = true }
  unfolding round
  round_last t going = ground arith

  rounds_exited :
      (rest : List Bool) (t : Subscriber E) → t.exited ≡ true → rounds svc name rest t ≡ t
  unfolding rounds
  rounds_exited [] t gone = refl
  rounds_exited (b ∷ rest) t gone =
      ap (rounds svc name rest) (round_exited b t gone) ∙ rounds_exited rest t gone

  -- Once stopSubChan is closed, the next round ends the goroutine, and no later one does anything.
  pub rounds_stop :
      (rest : List Bool) (s : Subscriber E)
      → s.exited ≡ false
      → rounds svc name (true ∷ rest) s ≡ record s { exited = true }
  unfolding rounds
  rounds_stop rest s going =
      ap (rounds svc name rest) (round_last s going)
      ∙ rounds_exited rest (record s { exited = true }) refl

module _ {E : Type 0} (svc : Service E) (name : Bytes)
    (gone : (before : List Call) (url handle : Bytes)
      → svc.on_delete before url handle ≡ none) where
  on_received-delivered :
      (m : Message) (s : Subscriber E)
      → (on_received svc name m s).delivered ≡ s.delivered ++ (m.body ∷ [])
  unfolding on_received
  on_received-delivered m s = elim (Option-cases m.receipt_handle) [
    | inl no_handle ↦ ground arith
    | inr (h, handle) ↦ ground (arith, gone s.calls name h)
  ]

  on_all_received-delivered :
      (ms : List Message) (s : Subscriber E)
      → (on_all_received svc name ms s).delivered ≡ s.delivered ++ message_bodies ms
  unfolding on_all_received
  on_all_received-delivered [] s = sym (append-nil _)
  on_all_received-delivered (m ∷ ms) s =
      on_all_received-delivered ms (on_received svc name m s)
      ∙ ap (λ l. l ++ message_bodies ms) (on_received-delivered m s)
      ∙ append_assoc s.delivered _ _

  -- Where every deletion succeeds, nothing is left out: all bodies of an answer are delivered, in
  -- order.
  pub poll_delivers_all :
      (ms : List Message) (s : Subscriber E)
      → svc.on_receive s.calls name ≡ messages ms
      → (poll svc name s).delivered ≡ s.delivered ++ message_bodies ms
  unfolding poll
  poll_delivers_all ms s answer = rw (answer, poll) (on_all_received-delivered ms _)
