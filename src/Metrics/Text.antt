-- ===== src/Metrics/Text.antt =====
-- internal/metrics/metrics.go: Handler. A map is written in the order of its list; `seconds` is %.4f
-- of a sum of durations.
mod Laws
mod Examples
use stackd.Base.{
  ℕ, suc, List, [], ◌∷◌, ◌++◌, map, Bytes, bytes, decimal, lookup, Assoc, ℤ, pos, negsuc,
}
use stackd.Metrics.{Metrics, get_or}
use stackd.Metrics.Labels.{escape_label}

-- `%d` of an int64
abbrev pub int_text : ℤ → Bytes
int_text (pos n) = decimal n
int_text (negsuc n) = b'-' ∷ decimal (suc n)

-- name="value", with the value escaped.
abbrev pub label : (name value : Bytes) → Bytes
label name value = name ++ (bytes "=\"" ++ (escape_label value ++ bytes "\""))

-- One line of text, of a metric with its labels and value.
abbrev pub sample : (metric labels value : Bytes) → Bytes
sample metric labels value = metric ++ (b'{' ∷ labels ++ (bytes "} " ++ value))

pub header : (metric help kind : Bytes) → List Bytes
header metric help kind =
    (bytes "# HELP " ++ (metric ++ (b' ' ∷ help)))
    ∷ (bytes "# TYPE " ++ (metric ++ (b' ' ∷ kind)))
    ∷ []

-- The inner loop over the statuses of a name.
pub status_lines : (metric key name : Bytes) → Assoc ℕ → List Bytes
status_lines metric key name [] = []
status_lines metric key name ((status, count) ∷ more) =
    sample metric (label key name ++ (b',' ∷ label (bytes "status") status)) (decimal count)
    ∷ status_lines metric key name more

pub total_lines : (metric key : Bytes) → Assoc (Assoc ℕ) → List Bytes
unfolding status_lines
total_lines metric key [] = []
total_lines metric key ((name, statuses) ∷ more) =
    status_lines metric key name statuses ++ total_lines metric key more

abbrev pub concat : List (List Bytes) → List Bytes
concat [] = []
concat (lines ∷ more) = lines ++ concat more

module _ (seconds : ℤ → Bytes) where
  pub duration_lines : Assoc ℕ → Assoc ℤ → List Bytes
  duration_lines counts [] = []
  duration_lines counts ((repo, sum) ∷ more) =
      sample (bytes "stackd_sync_duration_seconds_sum") (label (bytes "repo") repo) (seconds sum)
      ∷ sample (bytes "stackd_sync_duration_seconds_count") (label (bytes "repo") repo)
          (decimal (get_or 0 (lookup repo counts)))
      ∷ duration_lines counts more

  pub gauge_lines : Assoc ℕ → List Bytes
  gauge_lines [] = []
  gauge_lines ((key, count) ∷ more) =
      sample (bytes "stackd_containers_running") (label (bytes "stack") key) (decimal count)
      ∷ gauge_lines more

  pub timestamp_lines : Assoc ℤ → List Bytes
  timestamp_lines [] = []
  timestamp_lines ((repo, ts) ∷ more) =
      sample (bytes "stackd_last_sync_timestamp") (label (bytes "repo") repo) (int_text ts)
      ∷ timestamp_lines more

  abbrev pub runtime_line : (metric : Bytes) → ℕ → Bytes
  runtime_line metric n = metric ++ (b' ' ∷ decimal n)

  -- The lines of one gauge of the runtime.
  pub runtime_lines : (metric help : Bytes) → ℕ → List Bytes
  runtime_lines metric help n = header metric help (bytes "gauge") ++ runtime_line metric n ∷ []

  -- The parts of the text, in their order.
  pub sections : (goroutines threads : ℕ) → Metrics → List (List Bytes)
  unfolding header runtime_lines total_lines duration_lines gauge_lines timestamp_lines
  sections goroutines threads m =
      header (bytes "stackd_sync_total") (bytes "Total repo sync attempts by status.")
        (bytes "counter")
      ∷ total_lines (bytes "stackd_sync_total") (bytes "repo") m.sync_total
      ∷ header (bytes "stackd_sync_duration_seconds") (bytes "Repo sync duration summary.")
          (bytes "summary")
      ∷ duration_lines m.sync_duration_count m.sync_duration_sum
      ∷ header (bytes "stackd_stack_apply_total") (bytes "Total stack apply attempts by status.")
          (bytes "counter")
      ∷ total_lines (bytes "stackd_stack_apply_total") (bytes "stack") m.apply_total
      ∷ header (bytes "stackd_containers_running") (bytes "Running containers per stack.")
          (bytes "gauge")
      ∷ gauge_lines m.containers_running
      ∷ header (bytes "stackd_last_sync_timestamp")
          (bytes "Unix timestamp of last successful sync.") (bytes "gauge")
      ∷ timestamp_lines m.last_sync_ts
      ∷ runtime_lines (bytes "stackd_goroutines")
          (bytes "Number of goroutines currently in flight.") goroutines
      ∷ runtime_lines (bytes "stackd_threads")
          (bytes "Number of OS threads created by the Go runtime (cumulative high-water mark).")
          threads
      ∷ []

  -- Handler: its lines, each of which is written with a line feed behind it.
  unfoldable pub handler : (goroutines threads : ℕ) → Metrics → List Bytes
  unfolding sections
  handler goroutines threads m = concat (sections goroutines threads m)
