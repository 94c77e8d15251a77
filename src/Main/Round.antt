-- ===== src/Main/Round.antt =====
-- main.go: doSyncRound, without the refresh of the containers at its end. The clock is read anew at
-- each repository. Logging is left out.
pub mod Laws
pub mod Turns
pub mod Examples
use stackd.Base.{not, Bool, true, false, Option, List, [], ◌∷◌, if◌then◌else◌, Bytes, ℤ}
use stackd.Process.{Cmd, Host}
use stackd.State.{ContainerDetail}
use stackd.Schedule.{should_skip_sync, due_for_sync}
use stackd.Db.Repos.{RepoDb}
use stackd.Stacks.Compose.{InfisicalConfig}
use stackd.Sync.Auth.{SyncEnv, SyncState}
use stackd.Sync.Repo.{sync_repo_from_db}

-- `stopped` says whether the context is cancelled, as a function of the commands run so far.
module _ (env : SyncEnv) (h : Host)
    (list_containers : List Cmd → Bytes → Option (List ContainerDetail)) (stopped : List Cmd → Bool)
    (clone_dir : Bytes) (cfg : InfisicalConfig) (default_interval : ℤ) where
  abbrev pub sync : RepoDb → SyncState → SyncState
  sync repo s = sync_repo_from_db env h list_containers cfg clone_dir default_interval repo s

  -- The sync behind the test of the retry state, which stored an entry.
  abbrev sync_if_due : RepoDb → SyncState → SyncState
  sync_if_due repo s =
      if due_for_sync repo.name (h.now s.world.trace) s.schedule then sync repo s else s

  -- The body of the loop, behind the test of the context.
  pub take_turn : RepoDb → SyncState → SyncState
  take_turn repo s =
      let (skip, schedule) = should_skip_sync repo.name (h.now s.world.trace) s.schedule in
      let asked = record s { schedule = schedule } in
      if not repo.enabled then s else if skip then asked else sync_if_due repo asked

  -- The loop, with whether it ran to its end.
  unfoldable pub sync_round : List RepoDb → SyncState → Bool × SyncState
  unfolding take_turn
  sync_round [] s = (true, s)
  sync_round (repo ∷ repos) s =
      let rest = sync_round repos (take_turn repo s) in
      if stopped s.world.trace then (false, s) else rest
