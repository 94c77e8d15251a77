-- ===== src/Server/Trigger/Examples.antt =====
-- Tests of the sync triggers.
use stackd.Base.{◌≡◌, refl, [], ◌∷◌, bytes, text, pos, lookup}
use stackd.Server.Limiter.{RateLimiter, new_rate_limiter, allow}
use stackd.Server.Trigger.{Triggers, already_queued, enqueue, handle_sync}

abbrev limiter : RateLimiter
limiter = new_rate_limiter (pos 10)

abbrev full : Triggers
full = record {
  limiter = limiter;
  queue =
      bytes "a"
      ∷ bytes "b"
      ∷ bytes "c"
      ∷ bytes "d"
      ∷ bytes "e"
      ∷ bytes "f"
      ∷ bytes "g"
      ∷ bytes "h"
      ∷ bytes "i"
      ∷ bytes "j"
      ∷ bytes "k"
      ∷ bytes "l"
      ∷ bytes "m"
      ∷ bytes "n"
      ∷ bytes "o"
      ∷ bytes "p"
      ∷ [];
}

-- The answer says that the sync of a repository is queued that is not in the queue.
other_repo : (handle_sync (bytes "infra") (pos 9) full).0 ≡ already_queued
unfolding handle_sync enqueue allow lookup text
other_repo = refl
