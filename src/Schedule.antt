-- ===== src/Schedule.antt =====
-- main.go: the retry state of each repository and the time of its next scheduled sync.
-- A time.Time is the integer of nanoseconds since the zero time, a time.Duration an int64 of
-- nanoseconds; the current time is an argument. The maps are sync.Maps, so each operation is
-- atomic; the operations on a syncBackoff hold its mutex from the load to the end.
pub mod Laws
pub mod History
pub mod Due
mod Interval
mod Examples
use stackd.Base.{
  ℕ, ◌+◌, ◌*◌, ◌^◌, ◌||◌, ◌&&◌, not, Bool, true, false, Option, none, some, if◌then◌else◌, leb, ℤ,
  pos, ◌+ℤ◌, mul_i64, ltb_ℤ, leb_ℤ, eqb_ℤ, Bytes, Assoc, lookup, insert,
}

-- syncBackoff, without its mutex.
pub record Backoff : Type 0 where
  pub failures : ℕ
  pub next_allowed : ℤ
  pub suspended : Bool

abbrev pub fresh : Backoff
fresh = record { failures = 0; next_allowed = pos 0; suspended = false }

-- repoBackoffs and repoNextDue
pub record Schedule : Type 0 where
  pub backoffs : Assoc Backoff
  pub next_due : Assoc ℤ

abbrev pub max_sync_failures : ℕ
max_sync_failures = 10

abbrev pub second : ℕ
second = 1_000_000_000

-- time.Time's IsZero, and t.Before(u)
abbrev pub is_zero : ℤ → Bool
is_zero t = eqb_ℤ t (pos 0)

-- dueForSync
unfoldable pub due_for_sync : Bytes → ℤ → Schedule → Bool
due_for_sync name now s = elim (lookup name s.next_due) [ none ↦ true | some t ↦ not (ltb_ℤ now t) ]

-- markScheduled
unfoldable pub mark_scheduled : Bytes → ℤ → ℤ → Schedule → Schedule
mark_scheduled name interval now s =
    let due = if leb_ℤ interval (pos 0) then pos (60 * second) else interval in
    record s { next_due = insert name (now +ℤ due) s.next_due }

-- effectiveInterval, of the repository's SyncInterval
unfoldable pub effective_interval : ℤ → ℤ → ℤ
effective_interval sync_interval default_interval =
    if ltb_ℤ (pos 0) sync_interval
    then mul_i64 sync_interval (pos second)
    else if ltb_ℤ (pos 0) default_interval
    then default_interval
    else pos (60 * second)

-- getBackoff: LoadOrStore of a fresh value. The pointer that it returns is the entry.
pub get_backoff : Bytes → Schedule → Backoff × Schedule
get_backoff name s = elim (lookup name s.backoffs) [
  | none ↦ (fresh, record s { backoffs = insert name fresh s.backoffs })
  | some b ↦ (b, s)
]

-- A write through the pointer.
abbrev pub put_backoff : Bytes → Backoff → Schedule → Schedule
put_backoff name b s = record s { backoffs = insert name b s.backoffs }

-- recordSyncSuccess
unfoldable pub record_sync_success : Bytes → Schedule → Schedule
record_sync_success name s =
    let (b, t) = get_backoff name s in
    put_backoff name (record b { failures = 0; next_allowed = pos 0; suspended = false }) t

-- resetBackoff
unfoldable pub reset_backoff : Bytes → Schedule → Schedule
reset_backoff name s =
    let (b, t) = get_backoff name s in
    put_backoff name (record b { failures = 0; next_allowed = pos 0; suspended = false }) t

-- The delay after a number of failures: twice the interval for each, at most eight times.
-- The shift is by less than ten, so it is exact.
pub delay : ℕ → ℤ → ℤ
delay failures base =
    let backoff = mul_i64 (pos (2 ^ failures)) base in
    let max_backoff = mul_i64 (pos 8) base in
    if ltb_ℤ max_backoff backoff then max_backoff else backoff

-- What recordSyncFailure does to one syncBackoff.
pub fail : ℤ → ℤ → Backoff → Backoff × Bool
fail base now b =
    let failures = b.failures + 1 in
    if leb max_sync_failures failures
    then (record b { failures = failures; suspended = true }, true)
    else (record b { failures = failures; next_allowed = now +ℤ delay failures base }, false)

-- recordSyncFailure
unfoldable pub record_sync_failure : Bytes → ℤ → ℤ → Schedule → Schedule × Bool
record_sync_failure name base now s =
    let (b, t) = get_backoff name s in
    let (b', suspended) = fail base now b in (put_backoff name b' t, suspended)

-- The test of shouldSkipSync on one syncBackoff.
pub skips : ℤ → Backoff → Bool
skips now b = b.suspended || not (is_zero b.next_allowed) && ltb_ℤ now b.next_allowed

-- shouldSkipSync, which stores a fresh entry where there is none.
unfoldable pub should_skip_sync : Bytes → ℤ → Schedule → Bool × Schedule
should_skip_sync name now s = let (b, t) = get_backoff name s in (skips now b, t)
