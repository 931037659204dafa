-- ===== src/Nats/Stopping.antt =====
-- queues/nats/nats.go, `Stop` and `Done`: what is true when `Done` is closed.
use vice.Base.{◌≡◌, true, false, ◌++◌, some, arith}
use vice.Relay.Fleet.{signal_all, all_exited}
use vice.Nats.{NatsHub, stop_begins, wait_ends, stop_ends}

module _ {Conn Stan C : Type 0} where
  pub nats_begins-fields :
      (h t : NatsHub Conn Stan C)
      → stop_begins h ≡ some t
      → (h.own.stop_pub_chan ≡ false)
        × (t.own.stop_pub_chan ≡ true)
        × (t.own.publishers ≡ signal_all h.own.publishers)
        × (t.own.unsubscribed ≡ h.own.unsubscribed ++ h.own.subscriptions)
        × (t.own.waited ≡ h.own.waited)
        × (t.own.stopchan ≡ h.own.stopchan)
  unfolding stop_begins
  nats_begins-fields h t e =
      (ground arith, ground arith, ground arith, ground arith, ground arith, ground arith)

  pub wait_ends-exited :
      (h t : NatsHub Conn Stan C) → wait_ends h ≡ some t → all_exited h.own.publishers ≡ true
  unfolding wait_ends
  wait_ends-exited h t e = ground arith

  pub stop_ends-waited : (h t : NatsHub Conn Stan C) → stop_ends h ≡ some t → h.own.waited ≡ true
  unfolding stop_ends
  stop_ends-waited h t e = ground arith
