-- ===== src/Main/Round/Turns.antt =====
-- main.go: which repositories a round syncs, and what it leaves of the others.
use stackd.Base.{
  ◌≡◌, ◌&&◌, not, refl, ◌∙◌, subst, sym, inl, inr, Bool-cases, Bool, true, false, Option, List, [],
  ◌∷◌, ◌++◌, arith, All, Bytes, str_eq, ℤ,
}
use stackd.Process.{Cmd, Host}
use stackd.State.{ContainerDetail}
use stackd.Schedule.{skips, should_skip_sync, due_for_sync}
use stackd.Schedule.Laws.{backoff_of, backoff_of-should_skip, should_skip-eq-skips}
use stackd.Schedule.Due.{due-should_skip}
use stackd.Db.Repos.{RepoDb}
use stackd.Stacks.Compose.{InfisicalConfig}
use stackd.Sync.Auth.{SyncEnv, SyncState}
use stackd.Sync.Repo.Laws.{SyncOutcome, sync_repo_from_db-SyncOutcome}
use stackd.Sync.Repo.Others.{KeepsRepo, KeepsRepo-trans, sync_repo_from_db-KeepsRepo}
use stackd.Main.Round.Laws.{
  IsSound, turn-cases, asked_state, take_turn-IsSound, sync_round-IsSound, sync_round-key_files,
}
use stackd.Main.Round.{take_turn, sync_round}

module _ (env : SyncEnv) (h : Host)
    (list_containers : List Cmd → Bytes → Option (List ContainerDetail)) (stopped : List Cmd → Bool)
    (clone_dir : Bytes) (cfg : InfisicalConfig) (default_interval : ℤ) where
  -- Whether a repository is to be synced at its turn: it is enabled, not in backoff, and due.
  abbrev pub wanted : RepoDb → ℤ → SyncState → Bool
  wanted repo now s =
      repo.enabled
      && (not (skips now (backoff_of repo.name s.schedule))
          && due_for_sync repo.name now s.schedule)

  -- What becomes of a repository whose turn is at `now`, from the state `s`.
  pub data Turn (repo : RepoDb) (now : ℤ) (s t : SyncState) : Type 0 where
    synced : wanted repo now s ≡ true → SyncOutcome repo.name s t → Turn repo now s t
    passed : wanted repo now s ≡ false → KeepsRepo repo.name s t → Turn repo now s t

  asked-KeepsRepo :
      (name : Bytes) (repo : RepoDb) (s : SyncState)
      → KeepsRepo name s
          (asked_state env h list_containers stopped clone_dir cfg default_interval repo s)
  asked-KeepsRepo name repo s = record {
    repo = refl;
    backoff = backoff_of-should_skip name repo.name s.schedule (h.now s.world.trace);
    due = λ now. due-should_skip name repo.name now s.schedule (h.now s.world.trace);
  }

  same-KeepsRepo : (name : Bytes) (s : SyncState) → KeepsRepo name s s
  same-KeepsRepo name s = record { repo = refl; backoff = refl; due = λ now. refl }

  -- The turn of one repository leaves another.
  take_turn-KeepsRepo :
      (name : Bytes) (repo : RepoDb) (s : SyncState)
      → IsSound env s
      → str_eq repo.name name ≡ false
      → KeepsRepo name s
          (take_turn env h list_containers stopped clone_dir cfg default_interval repo s)
  unfolding take_turn
  take_turn-KeepsRepo name repo s k n =
      let asked = asked_state env h list_containers stopped clone_dir cfg default_interval repo s in
      let kept = asked-KeepsRepo name repo s in
      turn-cases (KeepsRepo name s) repo.enabled _ _ s asked _ (λ _. same-KeepsRepo name s)
        (λ _. kept)
        (λ _. KeepsRepo-trans name s asked _ kept (
          sync_repo_from_db-KeepsRepo env h list_containers cfg clone_dir default_interval name repo
            asked k.fresh k.named n))

  outcome_behind :
      (name : Bytes) (s s' t : SyncState)
      → backoff_of name s'.schedule ≡ backoff_of name s.schedule
      → s'.key_files ≡ s.key_files
      → SyncOutcome name s' t
      → SyncOutcome name s t
  outcome_behind name s s' t e f o = record {
    repo = o.repo;
    stored = o.stored;
    recorded = rw (← e) o.recorded;
    key_files = o.key_files ∙ f;
  }

  take_turn-Turn :
      (repo : RepoDb) (s : SyncState)
      → IsSound env s
      → Turn repo
          (h.now s.world.trace)
          s
          (take_turn env h list_containers stopped clone_dir cfg default_interval repo s)
  unfolding take_turn
  take_turn-Turn repo s k =
      let now = h.now s.world.trace in
      let asked = asked_state env h list_containers stopped clone_dir cfg default_interval repo s in
      let kept = asked-KeepsRepo repo.name repo s in
      let w : wanted repo now s ≡ (
          repo.enabled
          && (not (should_skip_sync repo.name now s.schedule).0
              && due_for_sync repo.name now asked.schedule)) =
        rw (should_skip-eq-skips, due-should_skip) refl in
      turn-cases (Turn repo now s) repo.enabled _ _ s asked _
        (λ e. passed (ground arith) (same-KeepsRepo repo.name s)) (λ e. passed (w ∙ e) kept)
        (λ e. synced (w ∙ e) (
          outcome_behind repo.name s asked _ kept.backoff refl (
            sync_repo_from_db-SyncOutcome env h list_containers cfg clone_dir default_interval repo
              asked k.fresh)))

  -- The rounds of others leave a repository.
  sync_round-KeepsRepo :
      (name : Bytes) (repos : List RepoDb) (s : SyncState)
      → IsSound env s
      → All (λ r. str_eq r.name name ≡ false) repos
      → KeepsRepo name s
          (sync_round env h list_containers stopped clone_dir cfg default_interval repos s).1
  unfolding sync_round
  sync_round-KeepsRepo name [] s k n = same-KeepsRepo name s
  sync_round-KeepsRepo name (repo ∷ repos) s k (n, ns) = elim (Bool-cases (stopped s.world.trace)) [
    | inl e ↦ rw (e, sync_round) (same-KeepsRepo name s)
    | inr e ↦
        let next = take_turn env h list_containers stopped clone_dir cfg default_interval repo s in
        rw (e, sync_round)
          (KeepsRepo-trans name s next _ (take_turn-KeepsRepo name repo s k n) (
            sync_round-KeepsRepo name repos next
              (take_turn-IsSound env h list_containers stopped clone_dir cfg default_interval repo s
                k)
              ns))
  ]

  wanted_same :
      (repo : RepoDb) (now : ℤ) (r s : SyncState)
      → KeepsRepo repo.name r s
      → wanted repo now r ≡ wanted repo now s
  wanted_same repo now r s a = rw (a.backoff, a.due) refl

  -- A turn seen from a state before it and from a state behind it, in which nothing else was done to
  -- the repository.
  Turn-around :
      (repo : RepoDb) (now : ℤ) (r s t u : SyncState)
      → KeepsRepo repo.name r s
      → s.key_files ≡ r.key_files
      → Turn repo now s t
      → KeepsRepo repo.name t u
      → u.key_files ≡ t.key_files
      → Turn repo now r u
  Turn-around repo now r s t u a f (synced w o) b g =
      synced (wanted_same repo now r s a ∙ w) (record {
        repo = o.repo;
        stored = b.repo ∙ o.stored;
        recorded = rw b.backoff (rw a.backoff at o.recorded);
        key_files = g ∙ o.key_files ∙ f;
      })
  Turn-around repo now r s t u a f (passed w o) b g =
      passed (wanted_same repo now r s a ∙ w)
        (KeepsRepo-trans repo.name r s u a (KeepsRepo-trans repo.name s t u o b))

  module _ (never : (trace : List Cmd) → stopped trace ≡ false) where
    sync_round-append :
        (xs ys : List RepoDb) (s : SyncState)
        → (sync_round env h list_containers stopped clone_dir cfg default_interval (xs ++ ys) s).1
          ≡ (sync_round env h list_containers stopped clone_dir cfg default_interval ys
              (sync_round env h list_containers stopped clone_dir cfg default_interval xs s).1).1
    unfolding sync_round
    sync_round-append [] ys s = refl
    sync_round-append (x ∷ xs) ys s = rw (never, sync_round) (sync_round-append xs ys _)

    -- A round that is not stopped decides on a repository of its list, whose name no other has, at
    -- its turn: where it is enabled, not in backoff and due then, it is synced and the outcome is
    -- recorded; otherwise its state, its retry state and its due time are left as they were.
    pub sync_round-Turn :
        (xs : List RepoDb) (repo : RepoDb) (ys : List RepoDb) (s : SyncState)
        → IsSound env s
        → All (λ r. str_eq r.name repo.name ≡ false) xs
        → All (λ r. str_eq r.name repo.name ≡ false) ys
        → Turn repo
            (h.now
              (sync_round env h list_containers stopped clone_dir cfg default_interval xs
                s).1.world.trace)
            s
            (sync_round env h list_containers stopped clone_dir cfg default_interval
              (xs ++ repo ∷ ys)
              s).1
    unfolding sync_round
    sync_round-Turn xs repo ys s k n m =
        let at = (sync_round env h list_containers stopped clone_dir cfg default_interval xs s).1 in
        let next = take_turn env h list_containers stopped clone_dir cfg default_interval repo at in
        let k' =
          sync_round-IsSound env h list_containers stopped clone_dir cfg default_interval xs s k in
        let k'' =
          take_turn-IsSound env h list_containers stopped clone_dir cfg default_interval repo at
            k' in
        let now = h.now at.world.trace in
        let whole =
          Turn-around repo now s at next _ (sync_round-KeepsRepo repo.name xs s k n)
            (sync_round-key_files env h list_containers stopped clone_dir cfg default_interval xs s
              k)
            (take_turn-Turn repo at k') (sync_round-KeepsRepo repo.name ys next k'' m)
            (sync_round-key_files env h list_containers stopped clone_dir cfg default_interval ys
              next k'') in
        subst (Turn repo now s) (sym (sync_round-append xs (repo ∷ ys) s))
          (rw (never, sync_round) whole)
