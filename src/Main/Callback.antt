-- ===== src/Main/Callback.antt =====
-- main.go: the callback of SetApplyStack, which pulls a repository and applies one stack of it. It
-- holds the repository's lock for the pull. Timeouts and logging are left out.
mod Laws
mod Examples
use stackd.Base.{ℕ, Option, none, some, List, ◌++◌, Bytes, bytes, Bool}
use stackd.Process.{Cmd, Host}
use stackd.State.{ActivityEvent, ContainerDetail, StackState}
use stackd.State.Store.{get_stack}
use stackd.Db.{Result, ok, err, Database}
use stackd.Db.Repos.{RepoDb, get_repo_by_name}
use stackd.Stacks.Compose.{InfisicalConfig}
use stackd.Stacks.Apply.{apply_stack}
use stackd.Docker.Holder.{ClientHolder}
use stackd.Sync.Auth.{SyncEnv, SyncState}
use stackd.Sync.Repo.{event, emit, OnDisk, not_synced, synced, git_sync_to_disk}
use stackd.Main.Config.{load_infisical, one_minute}
use stackd.Main.Loop.{LoopState, with_db, refresh}

-- The event behind the pull.
abbrev pulled_event : Bytes → OnDisk → ActivityEvent
pulled_event repo_name (not_synced e) =
    event (bytes "error") repo_name (repo_name ++ bytes " pull failed")
pulled_event repo_name (synced dest) =
    event (bytes "done") repo_name (repo_name ++ bytes " up to date")

module _ (env : SyncEnv) (h : Host)
    (list_containers : List Cmd → Bytes → Option (List ContainerDetail)) (stopped : List Cmd → Bool)
    (clone_dir : Bytes) (created : List Cmd → Option ℕ)
    (others : ℕ → Option ClientHolder → Option ClientHolder) where
  -- The pull with its two events; the interval and the secrets have no part in it.
  pub pull : InfisicalConfig → Bytes → RepoDb → SyncState → SyncState
  pull cfg repo_name repo s =
      let pulling = event (bytes "pulling") repo_name (bytes "Pulling " ++ repo_name) in
      let (r, t) =
        git_sync_to_disk env h list_containers cfg clone_dir one_minute repo (emit pulling s) in
      emit (pulled_event repo_name r) t

  -- Behind the pull, whatever came of it.
  pub apply_known : InfisicalConfig → (repo_name stack_name dir : Bytes) → LoopState → LoopState
  apply_known cfg repo_name stack_name dir m =
      refresh env h list_containers stopped clone_dir created others (record m {
        sync = record m.sync {
          world = apply_stack h list_containers cfg dir stack_name repo_name m.sync.world;
        };
      })

  -- Behind GetRepoByName, which gave `r` and left the database `db`.
  pub with_repo :
      (repo_name stack_name dir : Bytes) → Result RepoDb → Database → LoopState → LoopState
  unfolding pull apply_known
  with_repo repo_name stack_name dir (err e) db m = record m { sync = with_db db m.sync }
  with_repo repo_name stack_name dir (ok repo) db m =
      let (cfg, db') = load_infisical env.decrypt db in
      apply_known cfg repo_name stack_name dir
        (record m { sync = pull cfg repo_name repo (with_db db' m.sync) })

  -- Behind GetStack, which found `st`.
  pub with_stack : (repo_name stack_name : Bytes) → StackState → LoopState → LoopState
  unfolding with_repo
  with_stack repo_name stack_name st m =
      let (r, db) = get_repo_by_name env.parse_time repo_name m.sync.db in
      with_repo repo_name stack_name st.stack_dir r db m

  -- The callback
  unfoldable pub callback : (repo_name stack_name : Bytes) → LoopState → LoopState
  unfolding with_stack
  callback repo_name stack_name m = elim (get_stack repo_name stack_name m.sync.world.store) [
    | none ↦ m
    | some st ↦ with_stack repo_name stack_name st m
  ]
