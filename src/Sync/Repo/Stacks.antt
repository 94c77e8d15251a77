-- ===== src/Sync/Repo/Stacks.antt =====
-- main.go: the stacks in the store after a sync of a repository.
use stackd.Base.{
  ◌≡◌, inl, inr, refl, sym, subst, Bool-cases, Option, List, ◌++◌, Bytes, bytes, str_eq, ℤ,
}
use stackd.Process.{Cmd, Host}
use stackd.Paths.{join_path}
use stackd.Git.Sync.{Sha, sha, no_sha}
use stackd.State.{ContainerDetail, RepoState}
use stackd.State.Store.{Store, update_repo, get_all_stacks}
use stackd.Db.Repos.{RepoDb}
use stackd.Stacks.Compose.{InfisicalConfig}
use stackd.Stacks.Apply.Laws.{AllSettled, run_stacks_sync-AllSettled}
use stackd.Sync.Auth.{SyncEnv, SyncState}
use stackd.Sync.Auth.Laws.{IsFresh}
use stackd.Sync.Repo.{
  event, done_event, emit, old_sha, OnDisk, not_synced, synced, begin, git_sync_to_disk,
  record_error, record_success, apply_if_changed, with_sha, head_of, with_disk, sync_repo_from_db,
}
use stackd.Sync.Repo.Laws.{git_sync_to_disk-DiskKeeps}

-- An update of a repository leaves the stacks.
get_all_stacks-update_repo :
    (r : RepoState) (s : Store) → get_all_stacks (update_repo r s) ≡ get_all_stacks s
unfolding get_all_stacks update_repo
get_all_stacks-update_repo r s = refl

module _ (env : SyncEnv) (h : Host)
    (list_containers : List Cmd → Bytes → Option (List ContainerDetail)) (cfg : InfisicalConfig)
    (clone_dir : Bytes) (default_interval : ℤ) where
  record_error-AllSettled :
      (repo : RepoDb) (start : ℤ) (msg : Bytes) (s : SyncState)
      → AllSettled s.world.store
      → AllSettled
          (record_error env h list_containers cfg clone_dir default_interval repo start msg
            s).world.store
  unfolding record_error
  record_error-AllSettled repo start msg s k = rw get_all_stacks-update_repo k

  record_success-AllSettled :
      (repo : RepoDb) (start : ℤ) (new_sha : Bytes) (s : SyncState)
      → AllSettled s.world.store
      → AllSettled
          (record_success env h list_containers cfg clone_dir default_interval repo start new_sha
            s).world.store
  unfolding record_success
  record_success-AllSettled repo start new_sha s k = rw get_all_stacks-update_repo k

  apply_if_changed-AllSettled :
      (dest old new_sha : Bytes) (repo : RepoDb) (s : SyncState)
      → AllSettled s.world.store
      → AllSettled
          (apply_if_changed env h list_containers cfg clone_dir default_interval dest old new_sha
            repo s).world.store
  unfolding apply_if_changed
  apply_if_changed-AllSettled dest old new_sha repo s k = elim (Bool-cases (str_eq new_sha old)) [
    | inl e ↦ rw (e, apply_if_changed) k
    | inr e ↦
        rw (e, apply_if_changed)
          (run_stacks_sync-AllSettled h list_containers cfg (join_path dest repo.stacks_dir)
            repo.name s.world k)
  ]

  with_sha-AllSettled :
      (start : ℤ) (dest old : Bytes) (repo : RepoDb) (r : Sha) (s : SyncState)
      → AllSettled s.world.store
      → AllSettled
          (with_sha env h list_containers cfg clone_dir default_interval start dest old repo r
            s).world.store
  unfolding with_sha
  with_sha-AllSettled start dest old repo (no_sha text) s k =
      record_error-AllSettled repo start _
        (emit (event (bytes "error") repo.name (repo.name ++ bytes " sync failed")) s) k
  with_sha-AllSettled start dest old repo (sha new_sha) s k =
      record_success-AllSettled repo start new_sha
        (emit (done_event env h list_containers cfg clone_dir default_interval repo.name) (
          apply_if_changed env h list_containers cfg clone_dir default_interval dest old new_sha
            repo s))
        (apply_if_changed-AllSettled dest old new_sha repo s k)

  with_disk-AllSettled :
      (start : ℤ) (old : Bytes) (repo : RepoDb) (r : OnDisk) (s : SyncState)
      → AllSettled s.world.store
      → AllSettled
          (with_disk env h list_containers cfg clone_dir default_interval start old repo r
            s).world.store
  unfolding with_disk
  with_disk-AllSettled start old repo (not_synced x) s k =
      record_error-AllSettled repo start _
        (emit (event (bytes "error") repo.name (repo.name ++ bytes " pull failed")) s) k
  with_disk-AllSettled start old repo (synced dest) s k =
      let (r, t) = head_of env h list_containers cfg clone_dir default_interval dest s in
      with_sha-AllSettled start dest old repo r t k

  -- A sync of a repository, whatever fails in it, leaves no stack in the state "applying", if none was
  -- before, the path of the temporary file is new and the file there can be removed.
  pub sync_repo_from_db-AllSettled :
      (repo : RepoDb) (s : SyncState)
      → IsFresh env s.key_files
      → AllSettled s.world.store
      → AllSettled
          (sync_repo_from_db env h list_containers cfg clone_dir default_interval repo
            s).world.store
  unfolding sync_repo_from_db begin
  sync_repo_from_db-AllSettled repo s f k =
      let pulling = event (bytes "pulling") repo.name (bytes "Pulling " ++ repo.name) in
      let started = emit pulling (begin repo.name s) in
      let kept =
        git_sync_to_disk-DiskKeeps env h list_containers cfg clone_dir default_interval repo started
          f in
      with_disk-AllSettled (h.now s.world.trace) (old_sha repo.name (begin repo.name s).world.store)
        repo (git_sync_to_disk env h list_containers cfg clone_dir default_interval repo started).0
        (git_sync_to_disk env h list_containers cfg clone_dir default_interval repo started).1
        (subst AllSettled (sym kept.store) (rw get_all_stacks-update_repo k))
