-- ===== src/Metrics.antt =====
-- internal/metrics/metrics.go: the counters and gauges. Each function holds the lock, so it is one
-- step. A sum of durations is in nanoseconds instead of floating-point seconds.
pub mod Laws
pub mod Labels
pub mod Text
mod Examples
use stackd.Base.{
  ℕ, zero, suc, ◌+◌, Bool, Option, none, some, List, [], if◌then◌else◌, Bytes, bytes, str_eq, ℤ,
  pos, ◌+ℤ◌, Assoc, lookup, insert,
}

pub record Metrics : Type 0 where
  pub sync_total : Assoc (Assoc ℕ)
  pub apply_total : Assoc (Assoc ℕ)
  pub containers_running : Assoc ℕ
  pub last_sync_ts : Assoc ℤ
  pub sync_duration_sum : Assoc ℤ
  pub sync_duration_count : Assoc ℕ

abbrev pub no_metrics : Metrics
no_metrics = record {
  sync_total = [];
  apply_total = [];
  containers_running = [];
  last_sync_ts = [];
  sync_duration_sum = [];
  sync_duration_count = [];
}

abbrev pub get_or : {A : Type 0} → A → Option A → A
get_or d none = d
get_or d (some a) = a

-- total[name][status]++, where a missing map is made first.
pub count_up : (name status : Bytes) → Assoc (Assoc ℕ) → Assoc (Assoc ℕ)
count_up name status total =
    let statuses = get_or [] (lookup name total) in
    insert name (insert status (get_or 0 (lookup status statuses) + 1) statuses) total

-- The number of a name and a status.
pub count_of : (name status : Bytes) → Assoc (Assoc ℕ) → ℕ
count_of name status total = get_or 0 (lookup status (get_or [] (lookup name total)))

-- RecordSync; `now` is in seconds of Unix time.
unfoldable pub record_sync : (repo status : Bytes) (duration now : ℤ) → Metrics → Metrics
record_sync repo status duration now m =
    let counted = record m { sync_total = count_up repo status m.sync_total } in
    if str_eq status (bytes "success")
    then record counted {
      last_sync_ts = insert repo now m.last_sync_ts;
      sync_duration_sum =
          insert repo (get_or (pos 0) (lookup repo m.sync_duration_sum) +ℤ duration)
            m.sync_duration_sum;
      sync_duration_count =
          insert repo (get_or 0 (lookup repo m.sync_duration_count) + 1) m.sync_duration_count;
    }
    else counted

-- RecordApply
unfoldable pub record_apply : (stack status : Bytes) → Metrics → Metrics
record_apply stack status m = record m { apply_total = count_up stack status m.apply_total }

-- SetContainersRunning
unfoldable pub set_containers_running : Bytes → ℕ → Metrics → Metrics
set_containers_running repo_stack count m = record m {
  containers_running = insert repo_stack count m.containers_running;
}
