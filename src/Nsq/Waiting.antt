-- ===== src/Nsq/Waiting.antt =====
-- queues/nsq/nsq.go, `Stop`: the consumers are told to stop only after the wait for the producers.
use vice.Base.{ℕ, ◌≡◌, ◌⊎◌, true, List, ◌∷◌, ◌++◌, some, All}
use vice.Nsq.Progress.{Runs}
use vice.Nsq.Stopping.{Action, wait_end, acts}
use vice.Nsq.{
  Library, StopPhase, running, waiting, stopping, stopped, NsqHub, new, all_exited, wait_ends,
  close_at, worker_at,
}

-- `Stop` is not past its wait.
abbrev pub IsEarly : StopPhase → Type 0
IsEarly p = (p ≡ running) ⊎ (p ≡ waiting)

module _ {C : Type 0} (lib : Library C) (fuel : ℕ) where
  -- Where a run waits: what comes before, the end of the wait, and what comes after it.
  pub record Waits (path : List (Action C)) (h t : NsqHub C) : Type 0 where
    pub before : List (Action C)
    pub after : List (Action C)
    pub at_wait : NsqHub C
    pub past : NsqHub C
    pub parts : path ≡ before ++ (wait_end ∷ after)
    pub leads : acts lib fuel before h ≡ some at_wait
    pub waits : wait_ends at_wait ≡ some past
    pub goes_on : acts lib fuel after past ≡ some t

  -- The wait is in the run of a new transport; when it ended, every producer had returned, and no
  -- consumer had been told to stop.
  pub record ProducersFirst (path : List (Action C)) (t : NsqHub C) : Type 0 where
    pub wait : Waits path new t
    pub returned : all_exited wait.at_wait.own.producers ≡ true
    pub untold : All Runs wait.at_wait.own.consumers
