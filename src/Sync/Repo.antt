-- ===== src/Sync/Repo.antt =====
-- main.go: gitSyncToDisk and syncRepoFromDB. The lock of the repository is held from the read of the
-- stored SHA to the end, so one sync is one step. The store and the bus are there, as main passes
-- them. Timeouts and logging are left out.
pub mod Laws
pub mod Stacks
pub mod Others
pub mod Examples
use stackd.Base.{
  ◌||◌, not, Bool, true, false, Option, none, some, List, [], ◌∷◌, ◌++◌, if◌then◌else◌, Bytes,
  bytes, is_empty, str_eq, has_prefix, has_suffix, ℤ, ◌+◌, ◌/◌, sub_ℕ, pos_part, neg_part, pos,
  Assoc, insert, delete,
}
use stackd.Process.{Cmd, Host}
use stackd.Paths.{join_path, rel}
use stackd.Git.Validate.{Error, validate_repo_name}
use stackd.Git.Redact.{redact}
use stackd.Git.Sync.{AuthOpts, sync_repo, Sha, sha, no_sha, head_sha}
use stackd.State.{ActivityEvent, SyncStatus, ContainerDetail, RepoState, no_repo}
use stackd.State.Store.{Store, get_repo, update_repo}
use stackd.Schedule.{
  Schedule, second, effective_interval, record_sync_success, record_sync_failure, mark_scheduled,
}
use stackd.Metrics.{record_sync}
use stackd.Db.{DbError, Result, ok, err, Database}
use stackd.Db.Repos.{RepoDb}
use stackd.Db.Keys.{SshKeyDb, get_ssh_key}
use stackd.Stacks.Compose.{InfisicalConfig}
use stackd.Stacks.Apply.{World, publish_event, run_stacks_sync}
use stackd.Sync.Auth.{
  SyncError, git_failed, SafePath, refused, safe, safe_repo_path, SyncEnv, SyncState, Auth, failed,
  ready, clean_up, setup_git_auth,
}

-- What gitSyncToDisk gives: an error or the directory.
pub data OnDisk : Type 0 where
  not_synced : SyncError → OnDisk
  synced : Bytes → OnDisk

abbrev on_disk : Bytes → Option Bytes → OnDisk
on_disk dest none = synced dest
on_disk dest (some text) = not_synced (git_failed text)

abbrev pub event : (kind repo msg : Bytes) → ActivityEvent
event kind repo msg = record { kind = kind; repo = repo; stack = []; msg = msg }

abbrev pub in_store : (Store → Store) → SyncState → SyncState
in_store f s = record s { world = record s.world { store = f s.world.store } }

abbrev pub emit : ActivityEvent → SyncState → SyncState
emit ev s = record s { world = publish_event ev s.world }

-- The repository's state in the store, and the zero value with its name where it has none.
abbrev pub existing : Bytes → Store → RepoState
existing name store = elim (get_repo name store) [
  | none ↦ record no_repo { name = name }
  | some r ↦ r
]

abbrev sha_of : Option RepoState → Bytes
sha_of none = []
sha_of (some r) = r.last_sha

-- The LastSHA of the store, "" where it has none.
abbrev pub old_sha : Bytes → Store → Bytes
old_sha name store = sha_of (get_repo name store)

-- The first change of syncRepoFromDB: the repository is syncing.
pub begin : Bytes → SyncState → SyncState
begin name s =
    in_store (λ t. update_repo (record (existing name t) { status = SyncStatus.syncing }) t) s

-- The state that recordError stores, and that of a sync that succeeded.
abbrev pub error_state : (name msg : Bytes) → Store → RepoState
error_state name msg store = record (existing name store) {
  name = name;
  status = SyncStatus.error;
  last_error = redact msg;
}

abbrev pub success_state : Bytes → ℤ → Bytes → RepoState
success_state name now new_sha = record {
  name = name;
  last_sync = now;
  last_sha = new_sha;
  status = SyncStatus.ok;
  last_error = [];
}

-- now.Sub(start)
abbrev pub since : (now start : ℤ) → ℤ
since now start = sub_ℕ (pos_part now + neg_part start) (pos_part start + neg_part now)

-- Time.Unix of a time since the zero time, which is 62135596800 seconds before 1970.
abbrev pub unix_seconds : ℤ → ℤ
unix_seconds t = sub_ℕ (pos_part t / second) 62_135_596_800

module _ (env : SyncEnv) (h : Host)
    (list_containers : List Cmd → Bytes → Option (List ContainerDetail)) (cfg : InfisicalConfig)
    (clone_dir : Bytes) (default_interval : ℤ) where
  abbrev time : SyncState → ℤ
  time s = h.now s.world.trace

  -- gitSyncToDisk from SyncRepo on, with the cleanup at its end.
  pub fetch_to : Bytes → RepoDb → AuthOpts → Option Bytes → SyncState → OnDisk × SyncState
  fetch_to dest repo opts key_file s =
      let remote = if is_empty repo.remote then bytes "origin" else repo.remote in
      let (e, trace) = sync_repo env.encode h dest repo.url remote repo.branch opts s.world.trace in
      (
        on_disk dest e,
        record s {
          world = record s.world { trace = trace };
          key_files = clean_up env key_file s.key_files;
        },
      )

  abbrev with_auth : Bytes → RepoDb → Auth × SyncState → OnDisk × SyncState
  with_auth dest repo (failed e, s) = (not_synced e, s)
  with_auth dest repo (ready opts key_file, s) = fetch_to dest repo opts key_file s

  -- gitSyncToDisk
  pub git_sync_to_disk : RepoDb → SyncState → OnDisk × SyncState
  unfolding fetch_to
  git_sync_to_disk repo s = elim (safe_repo_path clone_dir repo.name) [
    | refused e ↦ (not_synced e, s)
    | safe dest ↦ with_auth dest repo (setup_git_auth env repo s)
  ]

  -- recordError; `start` is the time at which the sync began.
  pub record_error : RepoDb → (start : ℤ) → Bytes → SyncState → SyncState
  record_error repo start msg s =
      let name = repo.name in
      let interval = effective_interval repo.sync_interval default_interval in
      record s {
        world = record s.world {
          store = update_repo (error_state name msg s.world.store) s.world.store;
          metrics =
              record_sync name (bytes "error") (since (time s) start) (unix_seconds (time s))
                s.world.metrics;
        };
        schedule = (record_sync_failure name interval (time s) s.schedule).0;
      }

  -- syncRepoFromDB behind a sync that succeeded, where `sha` is the commit.
  pub record_success : RepoDb → (start : ℤ) → Bytes → SyncState → SyncState
  record_success repo start new_sha s =
      let name = repo.name in
      let interval = effective_interval repo.sync_interval default_interval in
      record s {
        world = record s.world {
          store = update_repo (success_state name (time s) new_sha) s.world.store;
          metrics =
              record_sync name (bytes "success") (since (time s) start) (unix_seconds (time s))
                s.world.metrics;
        };
        schedule = mark_scheduled name interval (time s) (record_sync_success name s.schedule);
      }

  -- The stacks are applied where the commit is another than the stored one.
  pub apply_if_changed : (dest old new_sha : Bytes) → RepoDb → SyncState → SyncState
  apply_if_changed dest old new_sha repo s = if str_eq new_sha old then s else record s {
    world =
        run_stacks_sync h list_containers cfg (join_path dest repo.stacks_dir) repo.name s.world;
  }

  abbrev pub done_event : Bytes → ActivityEvent
  done_event name = event (bytes "done") name (name ++ bytes " up to date")

  -- syncRepoFromDB behind HeadSHA.
  pub with_sha : (start : ℤ) (dest old : Bytes) → RepoDb → Sha → SyncState → SyncState
  unfolding apply_if_changed record_success record_error
  with_sha start dest old repo (no_sha text) s =
      record_error repo start (bytes "resolve HEAD SHA: " ++ text)
        (emit (event (bytes "error") repo.name (repo.name ++ bytes " sync failed")) s)
  with_sha start dest old repo (sha new_sha) s =
      record_success repo start new_sha
        (emit (done_event repo.name) (apply_if_changed dest old new_sha repo s))

  abbrev head_of : Bytes → SyncState → Sha × SyncState
  head_of dest s =
      let (r, trace) = head_sha h dest s.world.trace in
      (r, record s { world = record s.world { trace = trace } })

  -- syncRepoFromDB behind gitSyncToDisk.
  pub with_disk : (start : ℤ) (old : Bytes) → RepoDb → OnDisk → SyncState → SyncState
  unfolding with_sha
  with_disk start old repo (not_synced e) s =
      record_error repo start (bytes "git sync failed: " ++ env.describe e)
        (emit (event (bytes "error") repo.name (repo.name ++ bytes " pull failed")) s)
  with_disk start old repo (synced dest) s =
      let (r, t) = head_of dest s in with_sha start dest old repo r t

  -- syncRepoFromDB
  unfoldable pub sync_repo_from_db : RepoDb → SyncState → SyncState
  unfolding git_sync_to_disk with_disk begin
  sync_repo_from_db repo s =
      let pulling = event (bytes "pulling") repo.name (bytes "Pulling " ++ repo.name) in
      let started = begin repo.name s in
      let (r, t) = git_sync_to_disk repo (emit pulling started) in
      with_disk (time s) (old_sha repo.name started.world.store) repo r t
