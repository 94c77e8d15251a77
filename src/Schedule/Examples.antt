-- ===== src/Schedule/Examples.antt =====
-- Tests of the schedule and the retry state.
use stackd.Base.{
  ℕ, ◌*◌, ◌≡◌, refl, true, List, [], ◌∷◌, Bytes, bytes, text, pos, ◌+ℤ◌, ltb_ℤ, arith,
}
use stackd.Schedule.{second, effective_interval, record_sync_failure}
use stackd.Schedule.Interval.{effective_interval_wraps}
use stackd.Schedule.Laws.{backoff_of}
use stackd.Schedule.History.{
  Call, success, failure, ask, after, streak, Counts, after-Counts, failure-delay,
}

abbrev minute : ℕ
minute = 60 * second

abbrev infra : Bytes
infra = bytes "infra"

abbrev apps : Bytes
apps = bytes "apps"

abbrev calls : List Call
calls =
    failure infra (pos minute) (pos 900)
    ∷ ask infra (pos 800)
    ∷ failure apps (pos minute) (pos 700)
    ∷ failure infra (pos minute) (pos 600)
    ∷ success infra
    ∷ failure infra (pos minute) (pos 500)
    ∷ []

two_failures : streak infra calls ≡ 2
unfolding streak text
two_failures = refl

after-Counts_example : Counts (streak infra calls) (backoff_of infra (after calls))
after-Counts_example = after-Counts infra calls

failure-delay_example :
    (backoff_of infra
      (record_sync_failure infra (pos minute) (pos 1000) (after calls)).0).next_allowed
    ≡ pos 1000 +ℤ pos (8 * minute)
unfolding streak text
failure-delay_example = failure-delay infra minute (pos 1000) calls (omega arith) (omega arith)

effective_interval_wraps_example :
    ltb_ℤ (effective_interval (pos 9223372037) (pos minute)) (pos 0) ≡ true
effective_interval_wraps_example =
    effective_interval_wraps 9223372037 (pos minute) (omega arith) (omega arith)
