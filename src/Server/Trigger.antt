-- ===== src/Server/Trigger.antt =====
-- internal/server/server.go: handleSync, and the drain of its queue in main.go. The channel
-- syncTrigger is the list of its names, the oldest at the head; it holds at most 16 (main.go).
pub mod Laws
mod Examples
use stackd.Base.{
  ℕ, ltb, Bool, true, false, List, [], ◌∷◌, ◌++◌, any, keep, length, if◌then◌else◌, Bytes, ℤ,
  is_empty, str_eq, map, bytes,
}
use stackd.Db.Repos.{RepoDb}
use stackd.Server.Limiter.{RateLimiter, allow}

pub record Triggers : Type 0 where
  pub limiter : RateLimiter
  pub queue : List Bytes

-- The answers: the plain text "missing repo name" with 400, and the JSON texts with 429, 200 and 202.
pub data Answer : Type 0 where
  missing_repo_name rate_limited queued already_queued : Answer

abbrev pub capacity : ℕ
capacity = 16

-- handleSync from the send on.
unfoldable pub enqueue : Bytes → RateLimiter → List Bytes → Answer × Triggers
enqueue repo limiter queue =
    if ltb (length queue) capacity
    then (queued, record { limiter = limiter; queue = queue ++ repo ∷ [] })
    else (already_queued, record { limiter = limiter; queue = queue })

-- handleSync
unfoldable pub handle_sync : Bytes → ℤ → Triggers → Answer × Triggers
unfolding enqueue
handle_sync repo now t =
    if is_empty repo
    then (missing_repo_name, t)
    else let (allowed, limiter) = allow repo now t.limiter in
      if allowed
      then enqueue repo limiter t.queue
      else (rate_limited, record t { limiter = limiter })

-- The drain of the queue: the set of all names in it, and the queue behind it. A name stands for
-- itself in the set as often as in the queue.
unfoldable pub drain : Triggers → List Bytes × Triggers
drain t = (t.queue, record t { queue = [] })

-- The loop over the repositories that main read at the start of its iteration: those of them that are
-- synced, in their order. A name that is not among them is dropped.
unfoldable pub to_sync : (repos : List RepoDb) (triggered : List Bytes) → List RepoDb
to_sync repos triggered = keep (λ r. any (str_eq r.name) triggered) repos
