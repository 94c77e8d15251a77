-- ===== src/Metrics/Laws.antt =====
-- internal/metrics/metrics.go: the counters.
use stackd.Base.{
  ℕ, ◌+◌, ◌≡◌, ◌&&◌, [], if◌then◌else◌, arith, Bytes, bytes, str_eq, str_eq_iff, ℤ, Assoc, lookup,
  insert, lookup-insert, Bool-cases, inl, inr,
}
use stackd.Metrics.{Metrics, get_or, count_up, count_of, record_sync}

-- Counting up one name and status leaves every other count as it was.
count_of-count_up :
    (n s name status : Bytes) (total : Assoc (Assoc ℕ))
    → count_of name status (count_up n s total) ≡ (
        if str_eq n name && str_eq s status
        then count_of name status total + 1
        else count_of name status total)
unfolding count_of count_up lookup
count_of-count_up n s name status total = ground (
  arith,
  lookup-insert n name
      (insert s (get_or 0 (lookup s (get_or [] (lookup n total))) + 1) (get_or [] (lookup n total)))
      total,
  lookup-insert s status (get_or 0 (lookup s (get_or [] (lookup n total))) + 1)
      (get_or [] (lookup n total)),
  str_eq_iff n name,
  str_eq_iff s status,
)

-- A sync is counted under its repository and status and nowhere else, and a repository's count of
-- durations grows by one with each successful sync of it and with no other.
pub record_sync_lem :
    (repo status name other : Bytes) (duration now : ℤ) (m : Metrics)
    → (count_of name other (record_sync repo status duration now m).sync_total ≡ (
        if str_eq repo name && str_eq status other
        then count_of name other m.sync_total + 1
        else count_of name other m.sync_total))
      × (get_or 0 (lookup name (record_sync repo status duration now m).sync_duration_count) ≡ (
          if str_eq repo name && str_eq status (bytes "success")
          then get_or 0 (lookup name m.sync_duration_count) + 1
          else get_or 0 (lookup name m.sync_duration_count)))
unfolding record_sync
record_sync_lem repo status name other duration now m =
    elim (Bool-cases (str_eq status (bytes "success"))) [
      | inl e ↦ (
        rw (e, record_sync) (count_of-count_up repo status name other m.sync_total),
        ground (
          arith,
          lookup-insert repo name (get_or 0 (lookup repo m.sync_duration_count) + 1)
              m.sync_duration_count,
          str_eq_iff repo name,
        ),
      )
      | inr e ↦ (
        rw (e, record_sync) (count_of-count_up repo status name other m.sync_total),
        ground arith,
      )
    ]
