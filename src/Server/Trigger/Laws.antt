-- ===== src/Server/Trigger/Laws.antt =====
-- internal/server/server.go: the queue of the sync triggers, and its bound.
use stackd.Base.{
  ◌≤◌, ◌<◌, ◌≡◌, inl, inr, refl, Bool, true, false, List, [], ◌∷◌, ◌++◌, any, In, arith, length,
  length-append, if◌then◌else◌, Bytes, ℤ, str_eq, str_eq_iff, ◌∙◌,
}
use stackd.Server.Limiter.{RateLimiter}
use stackd.Server.Trigger.{
  Triggers, Answer, missing_repo_name, rate_limited, queued, already_queued, capacity, handle_sync,
}

-- The queue behind an answer: longer by the name where that is queued, else as it was.
abbrev pub queue_after : Answer → Bytes → List Bytes → List Bytes
queue_after queued repo queue = queue ++ repo ∷ []
queue_after missing_repo_name repo queue = queue
queue_after rate_limited repo queue = queue
queue_after already_queued repo queue = queue

pub record SyncOutcome (repo : Bytes) (before : Triggers) (a : Answer) (after : Triggers)
    : Type 0 where
  pub queue : after.queue ≡ queue_after a repo before.queue
  pub room : a ≡ queued → length before.queue < capacity
  pub full : a ≡ already_queued → capacity ≤ length before.queue

-- handleSync appends the name where it answers "queued", and the queue was then not full. With every
-- other answer it leaves the queue as it was, and "already_queued" means no more than that the queue
-- was full.
pub handle_sync-SyncOutcome :
    (repo : Bytes) (now : ℤ) (t : Triggers)
    → SyncOutcome repo t (handle_sync repo now t).0 (handle_sync repo now t).1
unfolding handle_sync
handle_sync-SyncOutcome repo now t = record {
  queue = ground arith;
  room = λ e. ground arith;
  full = λ e. ground arith;
}

module _ (start : RateLimiter) where
  -- The triggers after requests by name and time since the last drain, the latest at the head.
  unfoldable pub after : List (Bytes × ℤ) → Triggers
  after [] = record { limiter = start; queue = [] }
  after ((repo, now) ∷ calls) = (handle_sync repo now (after calls)).1

  abbrev pub is_queued : Answer → Bool
  is_queued queued = true
  is_queued missing_repo_name = false
  is_queued rate_limited = false
  is_queued already_queued = false

  -- The names that were answered "queued", the oldest at the head.
  unfoldable pub answered_queued : List (Bytes × ℤ) → List Bytes
  answered_queued [] = []
  answered_queued ((repo, now) ∷ calls) =
      let earlier = answered_queued calls in
      if is_queued (handle_sync repo now (after calls)).0 then earlier ++ repo ∷ [] else earlier

  queue_after-if :
      (a : Answer) (repo : Bytes) (queue : List Bytes)
      → queue_after a repo queue ≡ (if is_queued a then queue ++ repo ∷ [] else queue)
  queue_after-if queued repo queue = refl
  queue_after-if missing_repo_name repo queue = refl
  queue_after-if rate_limited repo queue = refl
  queue_after-if already_queued repo queue = refl

  pub queue-after : (calls : List (Bytes × ℤ)) → (after calls).queue ≡ answered_queued calls
  unfolding after answered_queued
  queue-after [] = refl
  queue-after ((repo, now) ∷ calls) =
      (handle_sync-SyncOutcome repo now (after calls)).queue
      ∙ queue_after-if (handle_sync repo now (after calls)).0 repo (after calls).queue
      ∙ rw (queue-after calls) refl

  pub after-bounded : (calls : List (Bytes × ℤ)) → length (after calls).queue ≤ capacity
  unfolding after
  after-bounded [] = omega arith
  after-bounded ((repo, now) ∷ calls) =
      bounded _ _ _ (after-bounded calls) (handle_sync-SyncOutcome repo now (after calls))
    where
      bounded :
          (a : Answer) (t u : Triggers)
          → length t.queue ≤ capacity
          → SyncOutcome repo t a u
          → length u.queue ≤ capacity
      bounded queued t u h o = rw o.queue (rw length-append (let r = o.room refl in omega arith))
      bounded missing_repo_name t u h o = rw o.queue h
      bounded rate_limited t u h o = rw o.queue h
      bounded already_queued t u h o = rw o.queue h

  pub any-In : (k : Bytes) (xs : List Bytes) → In k xs → any (str_eq k) xs ≡ true
  any-In k [] i = absurd i
  any-In k (x ∷ xs) (inl e) = ground (arith, str_eq_iff k x)
  any-In k (x ∷ xs) (inr i) = ground (arith, any-In k xs i)
