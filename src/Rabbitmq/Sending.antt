-- ===== src/Rabbitmq/Sending.antt =====
-- queues/rabbitmq/rabbitmq.go, `makePublisher`: the goroutine behind a send channel. The channel
-- has no buffer, so a client's send and the goroutine's receive are one event, which includes what
-- the `Publish` that follows returns.
use vice.Base.{
  ◌≡◌, refl, ap, subst, ◌∙◌, inl, inr, Bool-cases, Bool, true, false, List, [], ◌∷◌, ◌++◌, map,
  Option, none, some, Bytes, arith, if◌then◌else◌, ◌>>=◌, >>=-eq-some, concat_map,
  concat_map-append, append_assoc, append-nil, map-append,
}
use mathlib.Core.Option.{some-injective}
use vice.Transport.{Err}

-- A persistent message to the default exchange, with the error that `Publish` returned.
pub record Publishing (C : Type 0) : Type 0 where
  pub routing_key : Bytes
  pub body : Bytes
  pub result : Option C

pub record Publisher (C : Type 0) : Type 0 where
  pub stopping : Bool  -- stopPubChan is closed
  pub published : List (Publishing C)
  pub errs : List (Err C)
  pub rmqch_closed : Bool
  pub exited : Bool

unfoldable pub new_publisher : {C : Type 0} → Bool → Publisher C
new_publisher stopping = record {
  stopping = stopping;
  published = [];
  errs = [];
  rmqch_closed = false;
  exited = false;
}

pub data Event (C : Type 0) : Type 0 where
  client_send : (message : Bytes) (result : Option C) → Event C
  stop : Event C
  case_stop : Event C

module _ {C : Type 0} (name queue : Bytes) where
  abbrev pub publish_err : Bytes → Option C → List (Err C)
  publish_err message none = []
  publish_err message (some e) = record { message = message; name = name; err = e } ∷ []

  -- `none`: the event cannot happen in this state; a send to a goroutine that has returned waits
  -- forever.
  unfoldable pub step : Publisher C → Event C → Option (Publisher C)
  step s (client_send m r) =
      if s.exited
      then none
      else some (record s {
        published = s.published ++ (record { routing_key = queue; body = m; result = r } ∷ []);
        errs = s.errs ++ publish_err m r;
      })
  step s stop = if s.stopping then none else some (record s { stopping = true })
  step s case_stop =
      if s.exited
      then none
      else if s.stopping
      then some (record s { rmqch_closed = true; exited = true })
      else none

  unfoldable pub run : Publisher C → List (Event C) → Option (Publisher C)
  unfolding step
  run s [] = some s
  run s (e ∷ es) = step s e >>= λ t. run t es

abbrev pub accepted_by : {C : Type 0} → Event C → List Bytes
accepted_by (client_send m r) = m ∷ []
accepted_by _ = []

abbrev pub accepted : {C : Type 0} → List (Event C) → List Bytes
accepted = concat_map accepted_by

-- What a publisher has done with the messages that were sent to it: each was published, in order,
-- under the name of the queue, exactly the failures were reported, and the AMQP channel is closed
-- exactly if the goroutine has returned.
pub record IsPublished {C : Type 0} (name queue : Bytes) (s : Publisher C) (input : List Bytes)
    : Type 0 where
  pub in_order : map (λ (p : Publishing C). p.body) s.published ≡ input
  pub routed :
      map (λ (p : Publishing C). p.routing_key) s.published ≡ map (λ (m : Bytes). queue) input
  pub reported :
      s.errs ≡ concat_map (λ (p : Publishing C). publish_err name queue p.body p.result) s.published
  pub closes : s.rmqch_closed ≡ s.exited

module _ {C : Type 0} (name queue : Bytes) where
  step-IsPublished :
      (s t : Publisher C) (e : Event C) (input : List Bytes)
      → IsPublished name queue s input
      → step name queue s e ≡ some t
      → IsPublished name queue t (input ++ accepted_by e)
  unfolding step
  step-IsPublished s t (client_send m r) input f h = elim (Bool-cases s.exited) [
    | inl gone ↦ absurd (ground arith)
    | inr going ↦
        let u : Publisher C = record s {
          published = s.published ++ (record { routing_key = queue; body = m; result = r } ∷ []);
          errs = s.errs ++ publish_err name queue m r;
        } in
        let same : u ≡ t = ground (arith, h, going) in
        subst (λ v. IsPublished name queue v (input ++ (m ∷ []))) same
          (record {
            in_order = simp (map-append, f.in_order);
            routed = simp (map-append, f.routed);
            reported =
                ap (λ l. l ++ publish_err name queue m r) f.reported
                ∙ simp (
                  concat_map-append (λ (p : Publishing C). publish_err name queue p.body p.result),
                  append-nil,
                );
            closes = f.closes;
          })
  ]
  step-IsPublished s t stop input f h =
      let same : record s { stopping = true } ≡ t = ground arith in
      rw append-nil (
        subst (λ v. IsPublished name queue v input) same
          (record {
            in_order = f.in_order;
            routed = f.routed;
            reported = f.reported;
            closes = f.closes;
          }))
  step-IsPublished s t case_stop input f h =
      let same : record s { rmqch_closed = true; exited = true } ≡ t = ground arith in
      rw append-nil (
        subst (λ v. IsPublished name queue v input) same
          (record {
            in_order = f.in_order;
            routed = f.routed;
            reported = f.reported;
            closes = refl;
          }))

  run_from-IsPublished :
      (s t : Publisher C) (es : List (Event C)) (input : List Bytes)
      → IsPublished name queue s input
      → run name queue s es ≡ some t
      → IsPublished name queue t (input ++ accepted es)
  unfolding run
  run_from-IsPublished s t [] input f h =
      rw append-nil (subst (λ u. IsPublished name queue u input) (some-injective _ _ h) f)
  run_from-IsPublished s t (e ∷ es) input f h =
      let (u, now, later) = >>=-eq-some (step name queue s e) _ h in
      rw (← append_assoc input (accepted_by e) (accepted es)) (
        run_from-IsPublished u t es (input ++ accepted_by e) (step-IsPublished s u e input f now)
          later)

  -- In every interleaving, each message that a client has sent was published at once: once, in
  -- order and under the name of the queue. The failures, and they alone, were reported, each with
  -- its message. The AMQP channel is closed exactly when the goroutine has returned.
  pub run-IsPublished :
      (stopping : Bool) (t : Publisher C) (es : List (Event C))
      → run name queue (new_publisher stopping) es ≡ some t
      → IsPublished name queue t (accepted es)
  unfolding new_publisher
  run-IsPublished stopping t es h =
      run_from-IsPublished (new_publisher stopping) t es []
        (record { in_order = refl; routed = refl; reported = refl; closes = refl }) h
