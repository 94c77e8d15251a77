-- ===== src/Sync/Lock/Mutexes.antt =====
-- main.go: what Lock and Unlock keep of the mutexes.
use stackd.Base.{
  ℕ, suc, ◌<◌, ◌≡◌, ◌==◌, inl, inr, Bool-cases, Option-cases, true, false, none, some, arith, Bytes,
  str_eq_iff, lookup, insert, lookup-insert,
}
use stackd.Sync.Lock.{outside, waiting, inside, Locks, set_at, repo_lock, arrive, enter, leave}

-- A goroutine that holds a mutex.
pub record Holder (m : ℕ) (s : Locks) : Type 0 where
  pub goroutine : ℕ
  pub repo : Bytes
  pub is_inside : s.goroutines goroutine ≡ inside repo m

-- The mutexes of the map are old and of one repository each; the mutex that a goroutine waits for or
-- holds is that of its repository; a mutex is locked while a goroutine holds it, which is one.
pub record IsGuarded (s : Locks) : Type 0 where
  pub old : (repo : Bytes) (m : ℕ) → lookup repo s.repo_locks ≡ some m → m < s.fresh
  pub one :
      (repo other : Bytes) (m : ℕ)
      → lookup repo s.repo_locks ≡ some m
      → lookup other s.repo_locks ≡ some m
      → repo ≡ other
  pub awaited :
      (t : ℕ) (repo : Bytes) (m : ℕ)
      → s.goroutines t ≡ waiting repo m
      → lookup repo s.repo_locks ≡ some m
  pub held :
      (t : ℕ) (repo : Bytes) (m : ℕ)
      → s.goroutines t ≡ inside repo m
      → lookup repo s.repo_locks ≡ some m
  pub locked : (t : ℕ) (repo : Bytes) (m : ℕ) → s.goroutines t ≡ inside repo m → s.locked m ≡ true
  pub alone :
      (t u : ℕ) (repo other : Bytes) (m : ℕ)
      → s.goroutines t ≡ inside repo m
      → s.goroutines u ≡ inside other m
      → t ≡ u
  pub busy : (m : ℕ) → s.locked m ≡ true → Holder m s

enter-busy :
    (t : ℕ) (repo : Bytes) (m : ℕ) (s : Locks)
    → s.goroutines t ≡ waiting repo m
    → IsGuarded s
    → (k : ℕ) → (enter t repo m s).locked k ≡ true
    → Holder k (enter t repo m s)
unfolding enter
enter-busy t repo m s w g k e = elim (Bool-cases (k == m)) [
  | inl f ↦ record { goroutine = t; repo = repo; is_inside = ground arith }
  | inr f ↦
      let b = g.busy k (ground arith) in
      record { goroutine = b.goroutine; repo = b.repo; is_inside = ground (arith, b.is_inside) }
]

pub enter-IsGuarded :
    (t : ℕ) (repo : Bytes) (m : ℕ) (s : Locks)
    → s.goroutines t ≡ waiting repo m
    → s.locked m ≡ false
    → IsGuarded s
    → IsGuarded (enter t repo m s)
unfolding enter
enter-IsGuarded t repo m s w f g = record {
  old = g.old;
  one = g.one;
  awaited = λ u other k e. ground (arith, g.awaited u other k);
  held = λ u other k e. ground (arith, g.held u other k, g.awaited t repo m w);
  locked = λ u other k e. ground (arith, g.locked u other k);
  alone = λ u v r q k e d. ground (arith, g.alone u v r q k, g.locked u r k, g.locked v q k);
  busy = enter-busy t repo m s w g;
}

leave-busy :
    (t : ℕ) (repo : Bytes) (m : ℕ) (s : Locks)
    → s.goroutines t ≡ inside repo m
    → IsGuarded s
    → (k : ℕ) → (leave t m s).locked k ≡ true
    → Holder k (leave t m s)
unfolding leave
leave-busy t repo m s w g k e =
    let b = g.busy k (ground arith) in
    record { goroutine = b.goroutine; repo = b.repo; is_inside = ground (arith, b.is_inside) }

pub leave-IsGuarded :
    (t : ℕ) (repo : Bytes) (m : ℕ) (s : Locks)
    → s.goroutines t ≡ inside repo m
    → IsGuarded s
    → IsGuarded (leave t m s)
unfolding leave
leave-IsGuarded t repo m s w g = record {
  old = g.old;
  one = g.one;
  awaited = λ u other k e. ground (arith, g.awaited u other k);
  held = λ u other k e. ground (arith, g.held u other k);
  locked = λ u other k e. ground (arith, g.locked u other k, g.alone u t other repo k);
  alone = λ u v r q k e d. ground (arith, g.alone u v r q k);
  busy = leave-busy t repo m s w g;
}

-- The map with a new mutex.
stored : Bytes → Locks → Locks
stored repo s = record s {
  repo_locks = insert repo s.fresh s.repo_locks;
  fresh = suc s.fresh;
  locked = set_at s.fresh false s.locked;
}

stored-busy :
    (repo : Bytes) (s : Locks)
    → IsGuarded s
    → (k : ℕ) → (stored repo s).locked k ≡ true
    → Holder k (stored repo s)
unfolding stored
stored-busy repo s g k e =
    let b = g.busy k (ground arith) in
    record { goroutine = b.goroutine; repo = b.repo; is_inside = b.is_inside }

stored-IsGuarded :
    (repo : Bytes) (s : Locks)
    → lookup repo s.repo_locks ≡ none
    → IsGuarded s
    → IsGuarded (stored repo s)
unfolding stored
stored-IsGuarded repo s n g = record {
  old = λ r m e. ground (arith, lookup-insert repo r s.fresh s.repo_locks, g.old r m);
  one = λ r q m e d. ground (
    arith,
    lookup-insert repo r s.fresh s.repo_locks,
    lookup-insert repo q s.fresh s.repo_locks,
    g.one r q m,
    g.old r m,
    g.old q m,
    str_eq_iff repo r,
    str_eq_iff repo q,
  );
  awaited = λ u r k e.
      ground
        (arith, lookup-insert repo r s.fresh s.repo_locks, g.awaited u r k e, str_eq_iff repo r);
  held = λ u r k e.
      ground (arith, lookup-insert repo r s.fresh s.repo_locks, g.held u r k e, str_eq_iff repo r);
  locked = λ u r k e. ground (arith, g.locked u r k e, g.old r k (g.held u r k e));
  alone = g.alone;
  busy = stored-busy repo s g;
}

-- A goroutine at Lock of the mutex of its repository.
queued : ℕ → Bytes → ℕ → Locks → Locks
queued t repo m s = record s { goroutines = set_at t (waiting repo m) s.goroutines }

queued-busy :
    (t : ℕ) (repo : Bytes) (m : ℕ) (s : Locks)
    → s.goroutines t ≡ outside
    → IsGuarded s
    → (k : ℕ) → s.locked k ≡ true
    → Holder k (queued t repo m s)
unfolding queued
queued-busy t repo m s o g k e =
    let b = g.busy k e in
    record { goroutine = b.goroutine; repo = b.repo; is_inside = ground (arith, b.is_inside) }

queued-IsGuarded :
    (t : ℕ) (repo : Bytes) (m : ℕ) (s : Locks)
    → s.goroutines t ≡ outside
    → lookup repo s.repo_locks ≡ some m
    → IsGuarded s
    → IsGuarded (queued t repo m s)
unfolding queued
queued-IsGuarded t repo m s o l g = record {
  old = g.old;
  one = g.one;
  awaited = λ u r k e. ground (arith, g.awaited u r k);
  held = λ u r k e. ground (arith, g.held u r k);
  locked = λ u r k e. ground (arith, g.locked u r k);
  alone = λ u v r q k e d. ground (arith, g.alone u v r q k);
  busy = queued-busy t repo m s o g;
}

pub arrive-IsGuarded :
    (t : ℕ) (repo : Bytes) (s : Locks)
    → s.goroutines t ≡ outside
    → IsGuarded s
    → IsGuarded (arrive t repo s)
unfolding arrive repo_lock queued stored
arrive-IsGuarded t repo s o g = elim (Option-cases (lookup repo s.repo_locks)) [
  | inl n ↦
      rw (n, arrive, repo_lock)
        (queued-IsGuarded t repo s.fresh (stored repo s) o
          (ground (arith, lookup-insert repo repo s.fresh s.repo_locks, str_eq_iff repo repo))
          (stored-IsGuarded repo s n g))
  | inr (m, l) ↦ rw (l, arrive, repo_lock) (queued-IsGuarded t repo m s o l g)
]
