-- ===== src/Sync/Lock/Examples.antt =====
-- main.go: runs of the locks of the repositories.
use stackd.Base.{◌≡◌, refl, bytes, lookup, insert}
use stackd.Sync.Lock.{
  waiting, Locks, arrives, enters, no_locks, Reachable, initial, step, repo_lock, arrive, enter,
}
use stackd.Sync.Lock.Laws.{IsSerial, Reachable-IsSerial}

-- A scheduled sync that works, an apply from the dashboard that waits, and a sync of another.
abbrev working : Locks
working = enter 0 (bytes "infra") 0 (arrive 0 (bytes "infra") no_locks)

abbrev contended : Locks
contended = arrive 2 (bytes "dns") (arrive 1 (bytes "infra") working)

same_mutex : contended.goroutines 1 ≡ waiting (bytes "infra") 0
unfolding arrive enter repo_lock lookup insert
same_mutex = refl

other_mutex : contended.goroutines 2 ≡ waiting (bytes "dns") 1
unfolding arrive enter repo_lock lookup insert
other_mutex = refl

contended-Reachable : Reachable contended
unfolding arrive enter repo_lock lookup insert
contended-Reachable =
    step
      (step
        (step (step initial (arrives 0 (bytes "infra") _ refl))
          (enters 0 (bytes "infra") 0 _ refl refl))
        (arrives 1 (bytes "infra") _ refl))
      (arrives 2 (bytes "dns") _ refl)

Reachable-IsSerial_example : IsSerial contended
Reachable-IsSerial_example = Reachable-IsSerial contended contended-Reachable
