-- ===== src/Main/Loop.antt =====
-- main.go: the loop of main. One iteration lists the repositories, makes a round and waits for an
-- event, meanwhile handlers change the database. A channel's triggers are drained at once.
pub mod Laws
pub mod Triggers
mod Queue
pub mod Examples
use stackd.Base.{
  ℕ, not, Bool, true, false, Option, none, some, List, [], ◌∷◌, if◌then◌else◌, any, Bytes, str_eq,
  is_empty, ℤ,
}
use stackd.Process.{Cmd, Host}
use stackd.State.{ContainerDetail}
use stackd.State.Store.{set_infisical}
use stackd.Schedule.{reset_backoff}
use stackd.Db.{Result, ok, err, Database}
use stackd.Db.Repos.{RepoDb, list_repos}
use stackd.Stacks.Compose.{InfisicalConfig}
use stackd.Docker.Holder.{ClientHolder}
use stackd.Containers.{refresh_containers}
use stackd.Sync.Auth.{SyncEnv, SyncState}
use stackd.Sync.Repo.{in_store}
use stackd.Main.Config.{load_default_interval, load_infisical}
use stackd.Main.Round.{sync, sync_round}
use stackd.Server.Trigger.{to_sync}

-- The state of the loop: that of the syncs and the holder of the Docker client.
pub record LoopState : Type 0 where
  pub sync : SyncState
  pub holder : Option ClientHolder

-- What one iteration reads from the database at its start.
pub record Plan : Type 0 where
  pub repos : List RepoDb
  pub cfg : InfisicalConfig
  pub interval : ℤ

-- What the loop waits for, with the database as the handlers left it: the end of the context, a
-- tick, or triggers, of which there is one at least.
pub data Event : Type 0 where
  shutdown : Event
  tick : Database → Event
  triggers : (first : Bytes) (more : List Bytes) → Database → Event

abbrev pub ok_or_none : Result (List RepoDb) → List RepoDb
ok_or_none (ok rs) = rs
ok_or_none (err e) = []

abbrev pub with_db : Database → SyncState → SyncState
with_db db s = record s { db = db }

module _ (env : SyncEnv) (h : Host)
    (list_containers : List Cmd → Bytes → Option (List ContainerDetail)) (stopped : List Cmd → Bool)
    (clone_dir : Bytes) (created : List Cmd → Option ℕ)
    (others : ℕ → Option ClientHolder → Option ClientHolder) where
  abbrev pub refresh : LoopState → LoopState
  refresh m =
      let (holder, w) =
        refresh_containers list_containers (created m.sync.world.trace) others m.holder
          m.sync.world in
      record { sync = record m.sync { world = w }; holder = holder }

  -- The start of an iteration.
  pub make_plan : SyncState → Plan × SyncState
  make_plan s =
      let (repos, db₁) = list_repos env.parse_time s.db in
      let (cfg, db₂) = load_infisical env.decrypt db₁ in
      let (interval, db₃) = load_default_interval db₂ in
      (
        record { repos = ok_or_none repos; cfg = cfg; interval = interval },
        in_store (set_infisical (record { enabled = not (is_empty cfg.token); env = cfg.env }))
            (with_db db₃ s),
      )

  -- doSyncRound
  unfoldable pub do_sync_round : Plan → LoopState → LoopState
  do_sync_round plan m =
      let (finished, s) =
        sync_round env h list_containers stopped clone_dir plan.cfg plan.interval plan.repos
          m.sync in
      let synced = record m { sync = s } in if finished then refresh synced else synced

  -- The loop over the triggered repositories.
  pub sync_triggered : InfisicalConfig → ℤ → List RepoDb → SyncState → SyncState
  sync_triggered cfg interval [] s = s
  sync_triggered cfg interval (repo ∷ repos) s =
      let ready = record s { schedule = reset_backoff repo.name s.schedule } in
      sync_triggered cfg interval repos
        (sync env h list_containers stopped clone_dir cfg interval repo ready)

  -- The triggers of some names.
  unfoldable pub handle_triggers : Plan → List Bytes → LoopState → LoopState
  unfolding sync_triggered
  handle_triggers plan names m =
      let (cfg, db) = load_infisical env.decrypt m.sync.db in
      refresh (record m {
        sync = sync_triggered cfg plan.interval (to_sync plan.repos names) (with_db db m.sync);
      })

  pub handle_event : Plan → Event → LoopState → LoopState
  unfolding handle_triggers
  handle_event plan shutdown m = m
  handle_event plan (tick db) m = record m { sync = with_db db m.sync }
  handle_event plan (triggers first more db) m =
      handle_triggers plan (first ∷ more) (record m { sync = with_db db m.sync })

  -- One iteration.
  unfoldable pub iterate : Event → LoopState → LoopState
  unfolding make_plan do_sync_round handle_event
  iterate ev m =
      let (plan, s) = make_plan m.sync in
      handle_event plan ev (do_sync_round plan (record m { sync = s }))

  -- The loop for a list of events, the first at the head; it ends with a shutdown.
  unfoldable pub run : List Event → LoopState → LoopState
  unfolding iterate
  run [] m = m
  run (ev ∷ evs) m =
      let next = iterate ev m in
      let rest = run evs next in
      elim ev [ shutdown ↦ next | tick db ↦ rest | triggers n ns db ↦ rest ]
