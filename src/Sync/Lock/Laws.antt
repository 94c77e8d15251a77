-- ===== src/Sync/Lock/Laws.antt =====
-- main.go: the work on one clone is exclusive.
use stackd.Base.{ℕ, subst, ◌≡◌, true, arith, Bytes, lookup}
use stackd.Sync.Lock.Mutexes.{IsGuarded, enter-IsGuarded, leave-IsGuarded, arrive-IsGuarded}
use stackd.Sync.Lock.{
  arrives, enters, leaves, no_locks, Reachable, initial, step, waiting, inside, Locks,
}

no_locks-IsGuarded : IsGuarded no_locks
unfolding lookup
no_locks-IsGuarded = record {
  old = λ r m e. ground arith;
  one = λ r q m e d. ground arith;
  awaited = λ t r m e. ground arith;
  held = λ t r m e. ground arith;
  locked = λ t r m e. ground arith;
  alone = λ t u r q m e d. ground arith;
  busy = λ m e. absurd (ground arith);
}

Reachable-IsGuarded : (s : Locks) → Reachable s → IsGuarded s
Reachable-IsGuarded _ initial = no_locks-IsGuarded
Reachable-IsGuarded _ (step r (arrives t repo s o)) =
    arrive-IsGuarded t repo s o (Reachable-IsGuarded s r)
Reachable-IsGuarded _ (step r (enters t repo m s w f)) =
    enter-IsGuarded t repo m s w f (Reachable-IsGuarded s r)
Reachable-IsGuarded _ (step r (leaves t repo m s i)) =
    leave-IsGuarded t repo m s i (Reachable-IsGuarded s r)

-- What the locks promise: of the goroutines that work on one clone there is one at most, and a
-- goroutine that waits for a locked mutex waits for one that works on the same clone.
pub record IsSerial (s : Locks) : Type 0 where
  pub alone :
      (t u : ℕ) (repo : Bytes) (m k : ℕ)
      → s.goroutines t ≡ inside repo m
      → s.goroutines u ≡ inside repo k
      → t ≡ u
  pub blocked :
      (t : ℕ) (repo : Bytes) (m : ℕ)
      → s.goroutines t ≡ waiting repo m
      → s.locked m ≡ true
      → (u : ℕ) × (s.goroutines u ≡ inside repo m)

-- Whatever goroutines call Lock and Unlock in whatever order: at most one of them works on the clone
-- of a repository, and one that waits while its mutex is locked waits for one that works on the clone
-- of the same repository, never for another's.
pub Reachable-IsSerial : (s : Locks) → Reachable s → IsSerial s
Reachable-IsSerial s r =
    let g = Reachable-IsGuarded s r in
    record {
      alone = λ t u repo m k e d.
          ground (arith, g.held t repo m e, g.held u repo k d, g.alone t u repo repo m);
      blocked = λ t repo m w l.
          let b = g.busy m l in
          let q =
            g.one b.repo repo m (g.held b.goroutine b.repo m b.is_inside) (g.awaited t repo m w) in
          (b.goroutine, subst (λ r. s.goroutines b.goroutine ≡ inside r m) q b.is_inside);
    }
