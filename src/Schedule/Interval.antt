-- ===== src/Schedule/Interval.antt =====
-- main.go: the interval between two syncs.
use stackd.Base.{
  ℕ, ◌*◌, ◌<◌, ◌≤◌, ◌^◌, ◌≡◌, true, arith, ℤ, pos, ◌+ℤ◌, mul_i64, mul_i64_pos, ltb_ℤ, leb_ℤ, Bytes,
  lookup-insert_self, not, if◌then◌else◌,
}
use stackd.Schedule.{Schedule, second, due_for_sync, mark_scheduled, effective_interval}

-- A repository's own interval of n seconds, n positive, is taken as n · 10^9 nanoseconds, as long as
-- these stay below 2^63.
pub effective_interval_own :
    (n : ℕ) (default_interval : ℤ)
    → 0 < n
    → n * second < 2 ^ 63
    → effective_interval (pos n) default_interval ≡ pos (n * second)
unfolding effective_interval
effective_interval_own n d h k = ground (arith, mul_i64_pos n second k)

-- For an own interval of n seconds, where n · 10^9 is at least 2^63 and below 2^64, the product wraps
-- around and the interval is negative.
pub effective_interval_wraps :
    (n : ℕ) (default_interval : ℤ)
    → 2 ^ 63 ≤ n * second
    → n * second < 2 ^ 64
    → ltb_ℤ (effective_interval (pos n) default_interval) (pos 0) ≡ true
unfolding effective_interval mul_i64
effective_interval_wraps n d h k = ground arith

-- After markScheduled the repository is due exactly from `interval` on, or from 60 seconds on if
-- the interval is not positive.
pub due_for_sync-mark_scheduled :
    (name : Bytes) (interval now later : ℤ) (s : Schedule)
    → due_for_sync name later (mark_scheduled name interval now s)
      ≡ not (ltb_ℤ later (now +ℤ (if leb_ℤ interval (pos 0) then pos (60 * second) else interval)))
unfolding due_for_sync mark_scheduled
due_for_sync-mark_scheduled name interval now later s =
    rw (lookup-insert_self name _ s.next_due, due_for_sync)
