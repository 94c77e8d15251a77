-- ===== src/Stacks/Summary.antt =====
-- main.go: redactSecretEnv, extractErrorSummary and latestStartedAt.
pub mod Laws
mod Examples
use mathlib.Core.Option
use stackd.Base.{
  ℕ, zero, suc, ◌+◌, ◌-◌, ◌==◌, ◌||◌, not, ltb, Bool, true, false, Option, none, some, List, [],
  ◌∷◌, ◌++◌, map, keep, any, drop, length, if◌then◌else◌, Bytes, bytes, is_empty, is_digit,
  contains, split_byte, join, to_upper, trim_space, ℤ, pos, ltb_ℤ,
}
use stackd.State.{ContainerDetail}

abbrev pub secret_words : List Bytes
secret_words =
    bytes "TOKEN"
    ∷ bytes "SECRET"
    ∷ bytes "KEY"
    ∷ bytes "PASSWORD"
    ∷ bytes "PASS"
    ∷ bytes "CREDENTIAL"
    ∷ []

-- redactSecretEnv
unfoldable pub redact_secret_env : (key value : Bytes) → Bytes
redact_secret_env key value =
    if any (λ s. contains s (to_upper key)) secret_words then bytes "[redacted]" else value

abbrev is_final : ℕ → Bool
is_final c = c == b'm' || c == b'G' || c == b'K' || c == b'H' || c == b'F'

-- How many bytes `[0-9;]*[mGKHF]` matches at the head; the classes have no byte in common.
pub escape_tail : Bytes → Option ℕ
escape_tail [] = none
escape_tail (c ∷ s) =
    let rest = escape_tail s in
    if is_final c then some 1 else if is_digit c || c == b';' then Option.map suc rest else none

-- How many bytes ansiEscape matches at the head.
pub escape_len : Bytes → Option ℕ
unfolding escape_tail
escape_len [] = none
escape_len (c ∷ []) = none
escape_len (c ∷ d ∷ s) =
    if c == 0x1b
    then (if d == b'[' then Option.map (λ n. 2 + n) (escape_tail s) else none)
    else none

-- ansiEscape.ReplaceAllString(s, ""); the number counts the bytes of a match still to skip.
pub strip_from : ℕ → Bytes → Bytes
strip_from k [] = []
strip_from (suc k) (c ∷ s) = strip_from k s
strip_from zero (c ∷ s) = elim (escape_len (c ∷ s)) [
  | none ↦ c ∷ strip_from zero s
  | some n ↦ strip_from (n - 1) s
]

abbrev pub max_lines : ℕ
max_lines = 5

-- The trimmed lines that are not empty.
pub meaningful_lines : Bytes → List Bytes
unfolding strip_from escape_len
meaningful_lines output =
    keep (λ l. not (is_empty l)) (map trim_space (split_byte b'\n' (strip_from 0 output)))

pub last_lines : List Bytes → List Bytes
last_lines lines =
    if ltb max_lines (length lines) then drop (length lines - max_lines) lines else lines

abbrev summary : List Bytes → Bytes → Bytes
summary [] fallback = fallback
summary (l ∷ ls) fallback = join (bytes "\n") (last_lines (l ∷ ls))

-- extractErrorSummary
unfoldable pub extract_error_summary : (output fallback : Bytes) → Bytes
unfolding meaningful_lines last_lines
extract_error_summary output fallback = summary (meaningful_lines output) fallback

-- The loop of latestStartedAt.
pub latest_from : ℤ → List ContainerDetail → ℤ
latest_from latest [] = latest
latest_from latest (c ∷ cs) =
    latest_from (if ltb_ℤ latest c.started_at then c.started_at else latest) cs

-- latestStartedAt
unfoldable pub latest_started_at : List ContainerDetail → ℤ
unfolding latest_from
latest_started_at = latest_from (pos 0)
