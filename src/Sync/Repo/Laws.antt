-- ===== src/Sync/Repo/Laws.antt =====
-- main.go: what one sync leaves behind, on every path.
use stackd.Base.{
  ◌≡◌, ◌⊎◌, inl, inr, refl, ap, ◌∙◌, Bool-cases, Option, some, List, [], ◌++◌, Bytes, bytes, str_eq,
  str_eq_refl, ℤ,
}
use stackd.Process.{Cmd, Host}
use stackd.Git.Redact.Laws.{IsRedacted, redact-IsRedacted}
use stackd.Git.Sync.{Sha, sha, no_sha}
use stackd.State.{SyncStatus, ContainerDetail, RepoState}
use stackd.State.Store.{get_repo}
use stackd.State.Store.Laws.{get_repo-update_repo}
use stackd.Schedule.{Schedule, Backoff, fresh, fail, mark_scheduled}
use stackd.Schedule.Laws.{backoff_of, backoff_of-success, backoff_of-failure}
use stackd.Db.Repos.{RepoDb}
use stackd.Stacks.Compose.{InfisicalConfig}
use stackd.Sync.Auth.{
  SyncError, SafePath, refused, safe, safe_repo_path, SyncEnv, SyncState, Auth, failed, ready,
}
use stackd.Sync.Auth.Laws.{IsFresh, AuthKeeps, setup_git_auth-AuthKeeps}
use stackd.Sync.Repo.{
  event, done_event, emit, old_sha, error_state, success_state, OnDisk, not_synced, synced, begin,
  fetch_to, with_auth, git_sync_to_disk, record_error, record_success, apply_if_changed, with_sha,
  head_of, with_disk, sync_repo_from_db,
}

SafePath-cases : (p : SafePath) → ((e : SyncError) × (p ≡ refused e)) ⊎ ((d : Bytes) × (p ≡ safe d))
SafePath-cases (refused e) = inl (e, refl)
SafePath-cases (safe d) = inr (d, refl)

-- What bringing the clone up to date leaves as it was.
pub record DiskKeeps (s t : SyncState) : Type 0 where
  pub store : t.world.store ≡ s.world.store
  pub schedule : t.schedule ≡ s.schedule
  pub key_files : t.key_files ≡ s.key_files

-- What a sync makes of the repository's state and of its retry state: an answer of success, or an
-- error without credentials and one more failure.
pub data IsRecorded (name : Bytes) (before : Backoff) : RepoState → Backoff → Type 0 where
  succeeded :
      (r : RepoState)
      → r.name ≡ name
      → r.status ≡ SyncStatus.ok
      → r.last_error ≡ []
      → IsRecorded name before r fresh
  went_wrong :
      (r : RepoState) (base now : ℤ)
      → r.name ≡ name
      → r.status ≡ SyncStatus.error
      → IsRedacted r.last_error
      → IsRecorded name before r (fail base now before).0

-- The sync of a repository ends with its state in the store, recorded along with the retry state.
pub record SyncOutcome (name : Bytes) (s t : SyncState) : Type 0 where
  pub repo : RepoState
  pub stored : get_repo name t.world.store ≡ some repo
  pub recorded : IsRecorded name (backoff_of name s.schedule) repo (backoff_of name t.schedule)
  pub key_files : t.key_files ≡ s.key_files

module _ (env : SyncEnv) (h : Host)
    (list_containers : List Cmd → Bytes → Option (List ContainerDetail)) (cfg : InfisicalConfig)
    (clone_dir : Bytes) (default_interval : ℤ) where
  with_auth-DiskKeeps :
      (dest : Bytes) (repo : RepoDb) (s : SyncState) (a : Auth) (t : SyncState)
      → AuthKeeps env s a t
      → DiskKeeps s
          (with_auth env h list_containers cfg clone_dir default_interval dest repo (a, t)).1
  unfolding fetch_to
  with_auth-DiskKeeps dest repo s (failed e) t k = record {
    store = ap (λ w. w.store) k.world;
    schedule = k.schedule;
    key_files = k.key_files;
  }
  with_auth-DiskKeeps dest repo s (ready opts key_file) t k = record {
    store = ap (λ w. w.store) k.world;
    schedule = k.schedule;
    key_files = k.key_files;
  }

  pub git_sync_to_disk-DiskKeeps :
      (repo : RepoDb) (s : SyncState)
      → IsFresh env s.key_files
      → DiskKeeps s (git_sync_to_disk env h list_containers cfg clone_dir default_interval repo s).1
  unfolding git_sync_to_disk
  git_sync_to_disk-DiskKeeps repo s f = elim (SafePath-cases (safe_repo_path clone_dir repo.name)) [
    | inl (e, p) ↦
        rw (p, git_sync_to_disk) (record { store = refl; schedule = refl; key_files = refl })
    | inr (d, p) ↦
        rw (p, git_sync_to_disk)
          (with_auth-DiskKeeps d repo s _ _ (setup_git_auth-AuthKeeps env repo s f))
  ]

  record_error-SyncOutcome :
      (repo : RepoDb) (start : ℤ) (msg : Bytes) (s : SyncState)
      → SyncOutcome repo.name s
          (record_error env h list_containers cfg clone_dir default_interval repo start msg s)
  unfolding record_error
  record_error-SyncOutcome repo start msg s = record {
    repo = error_state repo.name msg s.world.store;
    stored = rw (get_repo-update_repo, str_eq_refl) refl;
    recorded =
        rw (backoff_of-failure, str_eq_refl) (went_wrong _ _ _ refl refl (redact-IsRedacted msg));
    key_files = refl;
  }

  pub backoff_of-mark_scheduled :
      (j name : Bytes) (interval now : ℤ) (s : Schedule)
      → backoff_of j (mark_scheduled name interval now s) ≡ backoff_of j s
  unfolding mark_scheduled backoff_of
  backoff_of-mark_scheduled j name interval now s = refl

  record_success-SyncOutcome :
      (repo : RepoDb) (start : ℤ) (new_sha : Bytes) (s : SyncState)
      → SyncOutcome repo.name s
          (record_success env h list_containers cfg clone_dir default_interval repo start new_sha s)
  unfolding record_success
  record_success-SyncOutcome repo start new_sha s = record {
    repo = success_state repo.name (h.now s.world.trace) new_sha;
    stored = rw (get_repo-update_repo, str_eq_refl) refl;
    recorded =
        rw (backoff_of-mark_scheduled, backoff_of-success, str_eq_refl)
          (succeeded _ refl refl refl);
    key_files = refl;
  }

  transfer :
      (name : Bytes) (s s' t : SyncState)
      → s'.schedule ≡ s.schedule
      → s'.key_files ≡ s.key_files
      → SyncOutcome name s' t
      → SyncOutcome name s t
  transfer name s s' t e f o = record {
    repo = o.repo;
    stored = o.stored;
    recorded = rw (← e) o.recorded;
    key_files = o.key_files ∙ f;
  }

  pub apply_if_changed-keeps :
      (dest old new_sha : Bytes) (repo : RepoDb) (s : SyncState)
      → ((apply_if_changed env h list_containers cfg clone_dir default_interval dest old new_sha
            repo s).schedule
          ≡ s.schedule)
        × ((apply_if_changed env h list_containers cfg clone_dir default_interval dest old new_sha
              repo s).key_files
            ≡ s.key_files)
  unfolding apply_if_changed
  apply_if_changed-keeps dest old new_sha repo s = elim (Bool-cases (str_eq new_sha old)) [
    | inl e ↦ (rw (e, apply_if_changed) refl, rw (e, apply_if_changed) refl)
    | inr e ↦ (rw (e, apply_if_changed) refl, rw (e, apply_if_changed) refl)
  ]

  with_sha-SyncOutcome :
      (start : ℤ) (dest old : Bytes) (repo : RepoDb) (r : Sha) (s : SyncState)
      → SyncOutcome repo.name s
          (with_sha env h list_containers cfg clone_dir default_interval start dest old repo r s)
  unfolding with_sha
  with_sha-SyncOutcome start dest old repo (no_sha text) s = transfer repo.name s _ _ refl refl (
      record_error-SyncOutcome repo start (bytes "resolve HEAD SHA: " ++ text)
        (emit (event (bytes "error") repo.name (repo.name ++ bytes " sync failed")) s))
  with_sha-SyncOutcome start dest old repo (sha new_sha) s =
      let (e, f) = apply_if_changed-keeps dest old new_sha repo s in
      transfer repo.name s _ _ e f (
        record_success-SyncOutcome repo start new_sha (
          emit (done_event env h list_containers cfg clone_dir default_interval repo.name) (
            apply_if_changed env h list_containers cfg clone_dir default_interval dest old new_sha
              repo s)))

  with_disk-SyncOutcome :
      (start : ℤ) (old : Bytes) (repo : RepoDb) (r : OnDisk) (s : SyncState)
      → SyncOutcome repo.name s
          (with_disk env h list_containers cfg clone_dir default_interval start old repo r s)
  unfolding with_disk
  with_disk-SyncOutcome start old repo (not_synced x) s = transfer repo.name s _ _ refl refl (
      record_error-SyncOutcome repo start (bytes "git sync failed: " ++ env.describe x)
        (emit (event (bytes "error") repo.name (repo.name ++ bytes " pull failed")) s))
  with_disk-SyncOutcome start old repo (synced dest) s =
      let (r, t) = head_of env h list_containers cfg clone_dir default_interval dest s in
      transfer repo.name s t _ refl refl (with_sha-SyncOutcome start dest old repo r t)

  -- A sync of a repository ends, whatever fails in it, with the repository's state in the store: "ok"
  -- without an error, along with a fresh retry state, or "error" with a text that holds no
  -- credential, along with one more failure. And no file of a key is left, where the path of the
  -- temporary file is new and the file there can be removed.
  pub sync_repo_from_db-SyncOutcome :
      (repo : RepoDb) (s : SyncState)
      → IsFresh env s.key_files
      → SyncOutcome repo.name s
          (sync_repo_from_db env h list_containers cfg clone_dir default_interval repo s)
  unfolding sync_repo_from_db begin
  sync_repo_from_db-SyncOutcome repo s f =
      let pulling = event (bytes "pulling") repo.name (bytes "Pulling " ++ repo.name) in
      let started = emit pulling (begin repo.name s) in
      let k = git_sync_to_disk-DiskKeeps repo started f in
      transfer repo.name s _ _ k.schedule k.key_files (
        with_disk-SyncOutcome (h.now s.world.trace) (old_sha repo.name started.world.store) repo
          (git_sync_to_disk env h list_containers cfg clone_dir default_interval repo started).0
          (git_sync_to_disk env h list_containers cfg clone_dir default_interval repo started).1)
