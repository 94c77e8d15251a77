-- ===== src/Metrics/Text/Laws.antt =====
-- internal/metrics/metrics.go: no label breaks a line of the metrics.
use stackd.Base.{
  ℕ, suc, ◌≡◌, ◌≢◌, ◌==◌, not, true, refl, List, [], ◌∷◌, ◌++◌, All, All-append, all, All-of_all,
  arith, Bytes, bytes, decimal, ℤ, pos, negsuc, Assoc, lookup, decimal-digits, All-map, is_digit,
}
use stackd.Metrics.{Metrics, get_or}
use stackd.Metrics.Labels.{escape_label, escape_label-one_line}
use stackd.Metrics.Text.{
  int_text, label, sample, header, status_lines, total_lines, duration_lines, gauge_lines,
  timestamp_lines, runtime_line, runtime_lines, concat, sections, handler,
}

-- A text without a line feed.
abbrev pub IsLine : Bytes → Type 0
IsLine = All (λ c. c ≢ b'\n')

-- For the texts of the program: the test computes.
literal-IsLine : (s : Bytes) → all (λ c. not (c == b'\n')) s ≡ true → IsLine s
literal-IsLine = All-of_all (λ c. c ≢ b'\n') (λ c. not (c == b'\n')) (λ c h. ground arith)

append-IsLine : (s t : Bytes) → IsLine s → IsLine t → IsLine (s ++ t)
append-IsLine = All-append (λ c. c ≢ b'\n')

decimal-IsLine : (n : ℕ) → IsLine (decimal n)
decimal-IsLine n =
    All-map (λ c. is_digit c ≡ true) (λ c. c ≢ b'\n') (λ c h. ground arith) (decimal n)
      (decimal-digits n)

int_text-IsLine : (i : ℤ) → IsLine (int_text i)
int_text-IsLine (pos n) = decimal-IsLine n
int_text-IsLine (negsuc n) = (ground arith, decimal-IsLine (suc n))

label-IsLine : (name value : Bytes) → IsLine name → IsLine (label name value)
label-IsLine name value h = append-IsLine name _ h (
    append-IsLine (bytes "=\"") _ (literal-IsLine (bytes "=\"") refl) (
      append-IsLine (escape_label value) _ (escape_label-one_line value)
        (literal-IsLine (bytes "\"") refl)))

sample-IsLine :
    (metric labels value : Bytes)
    → IsLine metric
    → IsLine labels
    → IsLine value
    → IsLine (sample metric labels value)
sample-IsLine metric labels value h k l = append-IsLine metric _ h (
  ground arith,
  append-IsLine labels _ k (append-IsLine (bytes "} ") value (literal-IsLine (bytes "} ") refl) l),
)

header-All :
    (metric help kind : Bytes)
    → IsLine metric
    → IsLine help
    → IsLine kind
    → All IsLine (header metric help kind)
unfolding header
header-All metric help kind h k l = (
  append-IsLine (bytes "# HELP ") _ (literal-IsLine (bytes "# HELP ") refl)
      (append-IsLine metric _ h (ground arith, k)),
  (
    append-IsLine (bytes "# TYPE ") _ (literal-IsLine (bytes "# TYPE ") refl)
        (append-IsLine metric _ h (ground arith, l)),
    tt,
  ),
)

status_lines-All :
    (metric key name : Bytes) (statuses : Assoc ℕ)
    → IsLine metric
    → IsLine key
    → All IsLine (status_lines metric key name statuses)
unfolding status_lines
status_lines-All metric key name [] h k = tt
status_lines-All metric key name ((status, count) ∷ more) h k = (
  sample-IsLine metric _ _ h
      (append-IsLine (label key name) _ (label-IsLine key name k)
        (ground arith, label-IsLine (bytes "status") status (literal-IsLine (bytes "status") refl)))
      (decimal-IsLine count),
  status_lines-All metric key name more h k,
)

total_lines-All :
    (metric key : Bytes) (total : Assoc (Assoc ℕ))
    → IsLine metric
    → IsLine key
    → All IsLine (total_lines metric key total)
unfolding total_lines
total_lines-All metric key [] h k = tt
total_lines-All metric key ((name, statuses) ∷ more) h k =
    All-append IsLine (status_lines metric key name statuses) _
      (status_lines-All metric key name statuses h k) (total_lines-All metric key more h k)

-- A sample with one label that the program names itself.
one_label-IsLine :
    (metric key name value : Bytes)
    → all (λ c. not (c == b'\n')) metric ≡ true
    → all (λ c. not (c == b'\n')) key ≡ true
    → IsLine value
    → IsLine (sample metric (label key name) value)
one_label-IsLine metric key name value h k l =
    sample-IsLine metric _ value (literal-IsLine metric h)
      (label-IsLine key name (literal-IsLine key k)) l

module _ (seconds : ℤ → Bytes) (printed : (d : ℤ) → IsLine (seconds d)) where
  duration_lines-All :
      (counts : Assoc ℕ) (sums : Assoc ℤ) → All IsLine (duration_lines seconds counts sums)
  unfolding duration_lines
  duration_lines-All counts [] = tt
  duration_lines-All counts ((repo, sum) ∷ more) = (
    one_label-IsLine (bytes "stackd_sync_duration_seconds_sum") (bytes "repo") repo _ refl refl
        (printed sum),
    (
      one_label-IsLine (bytes "stackd_sync_duration_seconds_count") (bytes "repo") repo _ refl refl
          (decimal-IsLine (get_or 0 (lookup repo counts))),
      duration_lines-All counts more,
    ),
  )

  gauge_lines-All : (gauges : Assoc ℕ) → All IsLine (gauge_lines seconds gauges)
  unfolding gauge_lines
  gauge_lines-All [] = tt
  gauge_lines-All ((key, count) ∷ more) = (
    one_label-IsLine (bytes "stackd_containers_running") (bytes "stack") key _ refl refl
        (decimal-IsLine count),
    gauge_lines-All more,
  )

  timestamp_lines-All : (ts : Assoc ℤ) → All IsLine (timestamp_lines seconds ts)
  unfolding timestamp_lines
  timestamp_lines-All [] = tt
  timestamp_lines-All ((repo, t) ∷ more) = (
    one_label-IsLine (bytes "stackd_last_sync_timestamp") (bytes "repo") repo _ refl refl
        (int_text-IsLine t),
    timestamp_lines-All more,
  )

  literal-header :
      (metric help kind : Bytes)
      → all (λ c. not (c == b'\n')) metric ≡ true
      → all (λ c. not (c == b'\n')) help ≡ true
      → all (λ c. not (c == b'\n')) kind ≡ true
      → All IsLine (header metric help kind)
  literal-header metric help kind h k l =
      header-All metric help kind (literal-IsLine metric h) (literal-IsLine help k)
        (literal-IsLine kind l)

  runtime_lines-All :
      (metric help : Bytes) (n : ℕ)
      → all (λ c. not (c == b'\n')) metric ≡ true
      → all (λ c. not (c == b'\n')) help ≡ true
      → All IsLine (runtime_lines seconds metric help n)
  unfolding runtime_lines
  runtime_lines-All metric help n h k =
      All-append IsLine (header metric help (bytes "gauge")) (runtime_line seconds metric n ∷ [])
        (literal-header metric help (bytes "gauge") h k refl)
        (append-IsLine metric _ (literal-IsLine metric h) (ground arith, decimal-IsLine n), tt)

  sections-All :
      (goroutines threads : ℕ) (m : Metrics)
      → All (All IsLine) (sections seconds goroutines threads m)
  unfolding sections
  sections-All goroutines threads m = (
    literal-header (bytes "stackd_sync_total") (bytes "Total repo sync attempts by status.")
        (bytes "counter") refl refl refl,
    (
      total_lines-All (bytes "stackd_sync_total") (bytes "repo") m.sync_total
          (literal-IsLine (bytes "stackd_sync_total") refl) (literal-IsLine (bytes "repo") refl),
      (
        literal-header (bytes "stackd_sync_duration_seconds") (bytes "Repo sync duration summary.")
            (bytes "summary") refl refl refl,
        (
          duration_lines-All m.sync_duration_count m.sync_duration_sum,
          (
            literal-header (bytes "stackd_stack_apply_total")
                (bytes "Total stack apply attempts by status.") (bytes "counter") refl refl refl,
            (
              total_lines-All (bytes "stackd_stack_apply_total") (bytes "stack") m.apply_total
                  (literal-IsLine (bytes "stackd_stack_apply_total") refl)
                  (literal-IsLine (bytes "stack") refl),
              (
                literal-header (bytes "stackd_containers_running")
                    (bytes "Running containers per stack.") (bytes "gauge") refl refl refl,
                (
                  gauge_lines-All m.containers_running,
                  (
                    literal-header (bytes "stackd_last_sync_timestamp")
                        (bytes "Unix timestamp of last successful sync.") (bytes "gauge") refl refl
                        refl,
                    (
                      timestamp_lines-All m.last_sync_ts,
                      (
                        runtime_lines-All (bytes "stackd_goroutines")
                            (bytes "Number of goroutines currently in flight.") goroutines refl
                            refl,
                        (
                          runtime_lines-All (bytes "stackd_threads")
                              (bytes
                                "Number of OS threads created by the Go runtime (cumulative high-water mark).")
                              threads refl refl,
                          tt,
                        ),
                      ),
                    ),
                  ),
                ),
              ),
            ),
          ),
        ),
      ),
    ),
  )

  concat-All : (parts : List (List Bytes)) → All (All IsLine) parts → All IsLine (concat parts)
  concat-All [] h = tt
  concat-All (lines ∷ parts) (k, h) = All-append IsLine lines _ k (concat-All parts h)

  -- The text of the metrics is one line for each header and each sample: whatever the repositories,
  -- stacks and statuses are named, no line has a line feed in it, where none is in a printed number
  -- of seconds.
  pub handler-All :
      (goroutines threads : ℕ) (m : Metrics) → All IsLine (handler seconds goroutines threads m)
  unfolding handler
  handler-All goroutines threads m =
      concat-All (sections seconds goroutines threads m) (sections-All goroutines threads m)
