-- ===== src/Redis/Stopping.antt =====
-- queues/redis/redis.go, `Stop`: its three steps.
use vice.Base.{◌≡◌, true, false, some, arith}
use vice.Relay.Fleet.{signal_all, all_exited}
use vice.Redis.{RedisHub, stop_begins, wait_ends, stop_ends}

module _ {Client C : Type 0} where
  pub stop_begins-fields :
      (h t : RedisHub Client C)
      → stop_begins h ≡ some t
      → (h.own.stop_pub_chan ≡ false)
        × (t.own.stop_pub_chan ≡ true)
        × (t.own.publishers ≡ signal_all h.own.publishers)
        × (t.own.waited ≡ h.own.waited)
        × (t.own.stopchan ≡ h.own.stopchan)
  unfolding stop_begins
  stop_begins-fields h t e = (ground arith, ground arith, ground arith, ground arith, ground arith)

  pub wait_ends-exited :
      (h t : RedisHub Client C) → wait_ends h ≡ some t → all_exited h.own.publishers ≡ true
  unfolding wait_ends
  wait_ends-exited h t e = ground arith

  pub stop_ends-waited : (h t : RedisHub Client C) → stop_ends h ≡ some t → h.own.waited ≡ true
  unfolding stop_ends
  stop_ends-waited h t e = ground arith
