-- ===== src/Sync/Repo/Others.antt =====
-- main.go: what a sync of one repository leaves alone of another.
use stackd.Base.{
  ◌≡◌, refl, sym, ap, ◌∙◌, inl, inr, Bool-cases, Option-cases, false, Option, List, ◌++◌, Bytes,
  bytes, str_eq, str_eq_iff, ℤ, arith, some,
}
use stackd.Process.{Cmd, Host}
use stackd.Paths.{join_path}
use stackd.Git.Sync.{Sha, sha, no_sha}
use stackd.State.{ContainerDetail, RepoState}
use stackd.State.Store.{Store, get_repo}
use stackd.State.Store.Laws.{get_repo-update_repo}
use stackd.Schedule.{Backoff, due_for_sync, record_sync_success}
use stackd.Schedule.Due.{due-success, due-failure, due-mark_scheduled}
use stackd.Schedule.Laws.{backoff_of, backoff_of-success, backoff_of-failure}
use stackd.Db.Repos.{RepoDb}
use stackd.Stacks.Compose.{InfisicalConfig}
use stackd.Stacks.Apply.Others.{run_stacks_sync-get_repo}
use stackd.Sync.Auth.{SyncEnv, SyncState}
use stackd.Sync.Auth.Laws.{IsFresh}
use stackd.Sync.Repo.{
  event, done_event, emit, existing, old_sha, OnDisk, not_synced, synced, begin, git_sync_to_disk,
  record_error, record_success, apply_if_changed, with_sha, head_of, with_disk, sync_repo_from_db,
}
use stackd.Sync.Repo.Laws.{
  IsRecorded, succeeded, went_wrong, sync_repo_from_db-SyncOutcome, git_sync_to_disk-DiskKeeps,
  apply_if_changed-keeps, backoff_of-mark_scheduled,
}

-- What is as before for a repository: its state, its retry state and when it is due.
pub record KeepsRepo (name : Bytes) (s t : SyncState) : Type 0 where
  pub repo : get_repo name t.world.store ≡ get_repo name s.world.store
  pub backoff : backoff_of name t.schedule ≡ backoff_of name s.schedule
  pub due : (now : ℤ) → due_for_sync name now t.schedule ≡ due_for_sync name now s.schedule

pub KeepsRepo-trans :
    (name : Bytes) (s t u : SyncState)
    → KeepsRepo name s t
    → KeepsRepo name t u
    → KeepsRepo name s u
KeepsRepo-trans name s t u a b = record {
  repo = b.repo ∙ a.repo;
  backoff = b.backoff ∙ a.backoff;
  due = λ now. b.due now ∙ a.due now;
}

-- Where only the store and the schedule count.
keeps_of_equal :
    (name : Bytes) (s t : SyncState)
    → get_repo name t.world.store ≡ get_repo name s.world.store
    → t.schedule ≡ s.schedule
    → KeepsRepo name s t
keeps_of_equal name s t e f = record {
  repo = e;
  backoff = ap (backoff_of name) f;
  due = λ now. ap (due_for_sync name now) f;
}

-- Each repository's state has the name that it is stored under.
abbrev pub IsNamed : Store → Type 0
IsNamed store = (name : Bytes) (r : RepoState) → get_repo name store ≡ some r → r.name ≡ name

existing-name : (name : Bytes) (store : Store) → IsNamed store → (existing name store).name ≡ name
existing-name name store h = elim (Option-cases (get_repo name store)) [
  | inl e ↦ rw (e, existing) refl
  | inr (r, e) ↦ rw (e, existing) (h name r e)
]

module _ (env : SyncEnv) (h : Host)
    (list_containers : List Cmd → Bytes → Option (List ContainerDetail)) (cfg : InfisicalConfig)
    (clone_dir : Bytes) (default_interval : ℤ) (name : Bytes) where
  apply_if_changed-get_repo :
      (dest old new_sha : Bytes) (repo : RepoDb) (s : SyncState)
      → get_repo name
          (apply_if_changed env h list_containers cfg clone_dir default_interval dest old new_sha
            repo s).world.store
        ≡ get_repo name s.world.store
  unfolding apply_if_changed
  apply_if_changed-get_repo dest old new_sha repo s = elim (Bool-cases (str_eq new_sha old)) [
    | inl e ↦ rw (e, apply_if_changed) refl
    | inr e ↦
        rw (e, apply_if_changed)
          (run_stacks_sync-get_repo h list_containers cfg (join_path dest repo.stacks_dir) repo.name
            s.world name)
  ]

  apply_if_changed-KeepsRepo :
      (dest old new_sha : Bytes) (repo : RepoDb) (s : SyncState)
      → KeepsRepo name s (
          apply_if_changed env h list_containers cfg clone_dir default_interval dest old new_sha
            repo s)
  apply_if_changed-KeepsRepo dest old new_sha repo s =
      keeps_of_equal name s _ (apply_if_changed-get_repo dest old new_sha repo s)
        (apply_if_changed-keeps env h list_containers cfg clone_dir default_interval dest old
          new_sha repo s).0

  record_error-KeepsRepo :
      (repo : RepoDb) (start : ℤ) (msg : Bytes) (s : SyncState)
      → str_eq repo.name name ≡ false
      → KeepsRepo name s
          (record_error env h list_containers cfg clone_dir default_interval repo start msg s)
  unfolding record_error
  record_error-KeepsRepo repo start msg s n = record {
    repo = rw (get_repo-update_repo, n) refl;
    backoff = rw (backoff_of-failure, n) refl;
    due = λ now. due-failure name repo.name now s.schedule _ _;
  }

  record_success-KeepsRepo :
      (repo : RepoDb) (start : ℤ) (new_sha : Bytes) (s : SyncState)
      → str_eq repo.name name ≡ false
      → KeepsRepo name s
          (record_success env h list_containers cfg clone_dir default_interval repo start new_sha s)
  unfolding record_success
  record_success-KeepsRepo repo start new_sha s n = record {
    repo = rw (get_repo-update_repo, n) refl;
    backoff =
        rw (backoff_of-mark_scheduled env h list_containers cfg clone_dir default_interval)
          (rw (backoff_of-success, n) refl);
    due = λ now.
        due-mark_scheduled name repo.name now (record_sync_success repo.name s.schedule) _ _ n
        ∙ due-success name repo.name now s.schedule;
  }

  with_sha-KeepsRepo :
      (start : ℤ) (dest old : Bytes) (repo : RepoDb) (r : Sha) (s : SyncState)
      → str_eq repo.name name ≡ false
      → KeepsRepo name s
          (with_sha env h list_containers cfg clone_dir default_interval start dest old repo r s)
  unfolding with_sha
  with_sha-KeepsRepo start dest old repo (no_sha text) s n =
      KeepsRepo-trans name s _ _ (keeps_of_equal name s _ refl refl) (
        record_error-KeepsRepo repo start (bytes "resolve HEAD SHA: " ++ text)
          (emit (event (bytes "error") repo.name (repo.name ++ bytes " sync failed")) s) n)
  with_sha-KeepsRepo start dest old repo (sha new_sha) s n =
      let t =
        apply_if_changed env h list_containers cfg clone_dir default_interval dest old new_sha repo
          s in
      let ev = done_event env h list_containers cfg clone_dir default_interval repo.name in
      KeepsRepo-trans name s t _ (apply_if_changed-KeepsRepo dest old new_sha repo s) (
        KeepsRepo-trans name t (emit ev t) _ (keeps_of_equal name t _ refl refl)
          (record_success-KeepsRepo repo start new_sha (emit ev t) n))

  with_disk-KeepsRepo :
      (start : ℤ) (old : Bytes) (repo : RepoDb) (r : OnDisk) (s : SyncState)
      → str_eq repo.name name ≡ false
      → KeepsRepo name s
          (with_disk env h list_containers cfg clone_dir default_interval start old repo r s)
  unfolding with_disk
  with_disk-KeepsRepo start old repo (not_synced x) s n =
      KeepsRepo-trans name s _ _ (keeps_of_equal name s _ refl refl) (
        record_error-KeepsRepo repo start (bytes "git sync failed: " ++ env.describe x)
          (emit (event (bytes "error") repo.name (repo.name ++ bytes " pull failed")) s) n)
  with_disk-KeepsRepo start old repo (synced dest) s n =
      let (r, t) = head_of env h list_containers cfg clone_dir default_interval dest s in
      KeepsRepo-trans name s t _ (keeps_of_equal name s t refl refl)
        (with_sha-KeepsRepo start dest old repo r t n)

  -- A sync of a repository leaves what is known of every other: its state, its retry state and when
  -- it is due, where each state is stored under its name.
  pub sync_repo_from_db-KeepsRepo :
      (repo : RepoDb) (s : SyncState)
      → IsFresh env s.key_files
      → IsNamed s.world.store
      → str_eq repo.name name ≡ false
      → KeepsRepo name s
          (sync_repo_from_db env h list_containers cfg clone_dir default_interval repo s)
  unfolding sync_repo_from_db begin
  sync_repo_from_db-KeepsRepo repo s f named n =
      let pulling = event (bytes "pulling") repo.name (bytes "Pulling " ++ repo.name) in
      let started = emit pulling (begin repo.name s) in
      let k =
        git_sync_to_disk-DiskKeeps env h list_containers cfg clone_dir default_interval repo started
          f in
      let r = git_sync_to_disk env h list_containers cfg clone_dir default_interval repo started in
      let begun : get_repo name started.world.store ≡ get_repo name s.world.store =
        rw get_repo-update_repo (rw (existing-name repo.name s.world.store named, n) refl) in
      KeepsRepo-trans name s r.1 _
        (keeps_of_equal name s r.1 (ap (get_repo name) k.store ∙ begun) k.schedule)
        (with_disk-KeepsRepo (h.now s.world.trace) (old_sha repo.name started.world.store) repo r.0
          r.1 n)

recorded-name :
    {name : Bytes} {b a : Backoff} {r : RepoState} → IsRecorded name b r a → r.name ≡ name
recorded-name (succeeded r e _ _) = e
recorded-name (went_wrong r _ _ e _ _) = e

module _ (env : SyncEnv) (h : Host)
    (list_containers : List Cmd → Bytes → Option (List ContainerDetail)) (cfg : InfisicalConfig)
    (clone_dir : Bytes) (default_interval : ℤ) where
  pub sync_repo_from_db-IsNamed :
      (repo : RepoDb) (s : SyncState)
      → IsFresh env s.key_files
      → IsNamed s.world.store
      → IsNamed
          (sync_repo_from_db env h list_containers cfg clone_dir default_interval repo
            s).world.store
  sync_repo_from_db-IsNamed repo s f named name r e = elim (Bool-cases (str_eq repo.name name)) [
    | inl k ↦
        let t = sync_repo_from_db env h list_containers cfg clone_dir default_interval repo s in
        let o =
          sync_repo_from_db-SyncOutcome env h list_containers cfg clone_dir default_interval repo s
            f in
        let q : repo.name ≡ name = (str_eq_iff repo.name name).0 k in
        let same : some o.repo ≡ some r = sym o.stored ∙ ap (λ n. get_repo n t.world.store) q ∙ e in
        let p : o.repo ≡ r = ground arith in sym (ap (λ x. x.name) p) ∙ recorded-name o.recorded ∙ q
    | inr k ↦
        let keeps =
          sync_repo_from_db-KeepsRepo env h list_containers cfg clone_dir default_interval name repo
            s f named k in
        named name r (sym keeps.repo ∙ e)
  ]
