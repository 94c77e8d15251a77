-- ===== src/Server/Limiter.antt =====
-- internal/server/server.go: rateLimiter. `Allow` holds the mutex, so it is one step; the time is an
-- argument.
pub mod Laws
mod Examples
use stackd.Base.{
  Bool, true, false, Option, none, some, [], if◌then◌else◌, Bytes, ℤ, ◌+ℤ◌, ltb_ℤ, Assoc, lookup,
  insert,
}

pub record RateLimiter : Type 0 where
  pub last_time : Assoc ℤ
  pub window : ℤ

-- newRateLimiter
abbrev pub new_rate_limiter : ℤ → RateLimiter
new_rate_limiter window = record { last_time = []; window = window }

-- time.Since(last) < rl.window, as a comparison of times.
abbrev pub too_soon : ℤ → ℤ → Option ℤ → Bool
too_soon window now none = false
too_soon window now (some last) = ltb_ℤ now (last +ℤ window)

-- Allow
unfoldable pub allow : Bytes → ℤ → RateLimiter → Bool × RateLimiter
allow key now rl =
    if too_soon rl.window now (lookup key rl.last_time)
    then (false, rl)
    else (true, record rl { last_time = insert key now rl.last_time })
