-- ===== src/Stacks/Summary/Examples.antt =====
-- Tests of the summaries.
use stackd.Base.{◌≡◌, refl, Bytes, bytes, text}
use stackd.Stacks.Summary.{
  redact_secret_env, escape_tail, escape_len, strip_from, meaningful_lines, last_lines,
  extract_error_summary,
}

abbrev output : Bytes
output = bytes "pulling\n\u{1b}[31m error \u{1b}[0m\n\n a \nb\nc\nd\n"

five : extract_error_summary output (bytes "failed") ≡ bytes "error\na\nb\nc\nd"
unfolding extract_error_summary meaningful_lines last_lines strip_from escape_len escape_tail text
five = refl

secret : redact_secret_env (bytes "db_password") (bytes "x") ≡ bytes "[redacted]"
unfolding redact_secret_env text
secret = refl
