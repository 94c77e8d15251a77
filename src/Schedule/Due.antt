-- ===== src/Schedule/Due.antt =====
-- main.go: which operations leave the time of a repository's next sync.
use stackd.Base.{◌≡◌, refl, inl, inr, Option-cases, false, Bytes, ℤ, lookup, lookup-insert, str_eq}
use stackd.Schedule.{
  Schedule, due_for_sync, mark_scheduled, get_backoff, record_sync_success, record_sync_failure,
  should_skip_sync, reset_backoff,
}

-- The time of a repository's next sync in the two schedules is the same.
module _ (name k : Bytes) (now : ℤ) (s : Schedule) where
  due-get_backoff : due_for_sync name now (get_backoff k s).1 ≡ due_for_sync name now s
  unfolding due_for_sync get_backoff
  due-get_backoff = elim (Option-cases (lookup k s.backoffs)) [
    | inl e ↦ rw (e, get_backoff) refl
    | inr (b, e) ↦ rw (e, get_backoff) refl
  ]

  pub due-success : due_for_sync name now (record_sync_success k s) ≡ due_for_sync name now s
  unfolding record_sync_success due_for_sync
  due-success = due-get_backoff

  pub due-reset : due_for_sync name now (reset_backoff k s) ≡ due_for_sync name now s
  unfolding reset_backoff due_for_sync
  due-reset = due-get_backoff

  pub due-should_skip :
      (at : ℤ) → due_for_sync name now (should_skip_sync k at s).1 ≡ due_for_sync name now s
  unfolding should_skip_sync due_for_sync
  due-should_skip at = due-get_backoff

  pub due-failure :
      (base at : ℤ)
      → due_for_sync name now (record_sync_failure k base at s).0 ≡ due_for_sync name now s
  unfolding record_sync_failure due_for_sync
  due-failure base at = due-get_backoff

  pub due-mark_scheduled :
      (interval at : ℤ)
      → str_eq k name ≡ false
      → due_for_sync name now (mark_scheduled k interval at s) ≡ due_for_sync name now s
  unfolding mark_scheduled due_for_sync
  due-mark_scheduled interval at n = rw (lookup-insert, n, due_for_sync) refl
