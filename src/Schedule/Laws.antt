-- ===== src/Schedule/Laws.antt =====
-- main.go: the retry state against the history of the syncs of a repository.
use stackd.Base.{
  ◌≡◌, none, some, if◌then◌else◌, arith, ℤ, Bytes, lookup, lookup-insert, str_eq, str_eq_iff,
}
use stackd.Schedule.{
  Backoff, fresh, Schedule, get_backoff, put_backoff, record_sync_success, reset_backoff, fail,
  record_sync_failure, skips, should_skip_sync,
}

-- The retry state that a repository has, stored or not.
unfoldable pub backoff_of : Bytes → Schedule → Backoff
backoff_of name s = elim (lookup name s.backoffs) [ none ↦ fresh | some b ↦ b ]

module _ (j k : Bytes) (s : Schedule) where
  get_backoff-value : (get_backoff k s).0 ≡ backoff_of k s
  unfolding get_backoff backoff_of
  get_backoff-value = ground arith

  backoff_of-get_backoff : backoff_of j (get_backoff k s).1 ≡ backoff_of j s
  unfolding get_backoff backoff_of
  backoff_of-get_backoff = ground (arith, lookup-insert k j fresh s.backoffs, str_eq_iff k j)

  backoff_of-put :
      (b : Backoff) → backoff_of j (put_backoff k b s) ≡ (if str_eq k j then b else backoff_of j s)
  unfolding backoff_of
  backoff_of-put b = ground (arith, lookup-insert k j b s.backoffs)

ruleset backoff_laws = (get_backoff-value, backoff_of-get_backoff, backoff_of-put)

module _ (j k : Bytes) (s : Schedule) where
  pub backoff_of-success :
      backoff_of j (record_sync_success k s) ≡ (if str_eq k j then fresh else backoff_of j s)
  unfolding record_sync_success
  backoff_of-success = simp backoff_laws

  pub backoff_of-reset :
      backoff_of j (reset_backoff k s) ≡ (if str_eq k j then fresh else backoff_of j s)
  unfolding reset_backoff
  backoff_of-reset = simp backoff_laws

  pub backoff_of-failure :
      (base now : ℤ)
      → backoff_of j (record_sync_failure k base now s).0
        ≡ (if str_eq k j then (fail base now (backoff_of k s)).0 else backoff_of j s)
  unfolding record_sync_failure
  backoff_of-failure base now = simp backoff_laws

  pub backoff_of-should_skip :
      (now : ℤ) → backoff_of j (should_skip_sync k now s).1 ≡ backoff_of j s
  unfolding should_skip_sync
  backoff_of-should_skip now = simp backoff_laws

-- The answers of the two operations that return one.
module _ (k : Bytes) (now : ℤ) (s : Schedule) where
  pub should_skip-eq-skips : (should_skip_sync k now s).0 ≡ skips now (backoff_of k s)
  unfolding should_skip_sync
  should_skip-eq-skips = simp get_backoff-value

  pub failure-eq-fail :
      (base : ℤ) → (record_sync_failure k base now s).1 ≡ (fail base now (backoff_of k s)).1
  unfolding record_sync_failure
  failure-eq-fail base = simp get_backoff-value
