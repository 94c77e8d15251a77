-- ===== src/Sync/Lock.antt =====
-- main.go: repoLock and the mutexes that syncRepoFromDB and the callback of SetApplyStack hold while
-- they work on a clone. A *sync.Mutex is its address in a heap of mutexes; goroutines are numbered.
mod Mutexes
mod Laws
mod Examples
use stackd.Base.{
  ℕ, suc, ◌==◌, Bool, true, false, Option, none, some, [], ◌≡◌, if◌then◌else◌, Bytes, Assoc, lookup,
  insert,
}

-- Where a goroutine is: outside, at Lock of the mutex of a repository, or behind it.
pub data Goroutine : Type 0 where
  outside : Goroutine
  waiting : (repo : Bytes) (mutex : ℕ) → Goroutine
  inside : (repo : Bytes) (mutex : ℕ) → Goroutine

-- repoLocks, the address of the next new mutex, the mutexes with whether they are locked, and the
-- goroutines.
pub record Locks : Type 0 where
  pub repo_locks : Assoc ℕ
  pub fresh : ℕ
  pub locked : ℕ → Bool
  pub goroutines : ℕ → Goroutine

-- A function with another value at a number.
abbrev pub set_at : {A : Type 0} → ℕ → A → (ℕ → A) → ℕ → A
set_at i a f j = if j == i then a else f j

-- repoLock: LoadOrStore of a new mutex.
unfoldable pub repo_lock : Bytes → Locks → ℕ × Locks
repo_lock repo s = elim (lookup repo s.repo_locks) [
  | some m ↦ (m, s)
  | none ↦ (
    s.fresh,
    record s {
      repo_locks = insert repo s.fresh s.repo_locks;
      fresh = suc s.fresh;
      locked = set_at s.fresh false s.locked;
    },
  )
]

-- A goroutine gets the mutex of a repository and calls Lock.
unfoldable pub arrive : ℕ → Bytes → Locks → Locks
unfolding repo_lock
arrive t repo s =
    let (m, s') = repo_lock repo s in
    record s' { goroutines = set_at t (waiting repo m) s'.goroutines }

-- Lock returns.
unfoldable pub enter : ℕ → Bytes → ℕ → Locks → Locks
enter t repo m s = record s {
  locked = set_at m true s.locked;
  goroutines = set_at t (inside repo m) s.goroutines;
}

-- Unlock
unfoldable pub leave : ℕ → ℕ → Locks → Locks
leave t m s = record s {
  locked = set_at m false s.locked;
  goroutines = set_at t outside s.goroutines;
}

-- A step of one goroutine: it calls Lock, Lock returns, which it does only for a mutex that is not
-- locked, or it calls Unlock.
pub data Step : Locks → Locks → Type 0 where
  arrives : (t : ℕ) (repo : Bytes) (s : Locks) → s.goroutines t ≡ outside → Step s (arrive t repo s)
  enters :
      (t : ℕ) (repo : Bytes) (m : ℕ) (s : Locks)
      → s.goroutines t ≡ waiting repo m
      → s.locked m ≡ false
      → Step s (enter t repo m s)
  leaves :
      (t : ℕ) (repo : Bytes) (m : ℕ) (s : Locks)
      → s.goroutines t ≡ inside repo m
      → Step s (leave t m s)

abbrev pub no_locks : Locks
no_locks = record { repo_locks = []; fresh = 0; locked = λ m. false; goroutines = λ t. outside }

pub data Reachable : Locks → Type 0 where
  initial : Reachable no_locks
  step : {a b : Locks} → Reachable a → Step a b → Reachable b
