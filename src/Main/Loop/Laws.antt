-- ===== src/Main/Loop/Laws.antt =====
-- main.go: what every run of the loop keeps.
use stackd.Base.{ℕ, sym, ◌∙◌, inl, inr, Bool-cases, Bool, Option, List, [], ◌∷◌, Bytes, ℤ}
use stackd.Process.{Cmd, Host}
use stackd.State.{ContainerDetail, InfisicalState}
use stackd.State.Store.{Store, get_repo, get_all_stacks, set_infisical}
use stackd.Schedule.{reset_backoff}
use stackd.Db.{Database}
use stackd.Db.Repos.{RepoDb}
use stackd.Stacks.Compose.{InfisicalConfig}
use stackd.Stacks.Apply.Laws.{AllSettled}
use stackd.Docker.Holder.{ClientHolder}
use stackd.Containers.{refresh_containers}
use stackd.Containers.Connect.{connect}
use stackd.Containers.Settled.{RefreshKeeps, refresh_with-RefreshKeeps}
use stackd.Sync.Auth.{SyncEnv, SyncState}
use stackd.Sync.Repo.Others.{IsNamed}
use stackd.Main.Config.{load_infisical}
use stackd.Server.Trigger.{to_sync}
use stackd.Main.Round.{sync_round}
use stackd.Main.Round.Laws.{IsSound, sync-IsSound, sync_round-IsSound}
use stackd.Main.Loop.{
  LoopState, Plan, Event, shutdown, tick, triggers, with_db, refresh, make_plan, do_sync_round,
  sync_triggered, handle_triggers, handle_event, iterate, run,
}

set_infisical-IsNamed : (i : InfisicalState) (s : Store) → IsNamed s → IsNamed (set_infisical i s)
unfolding set_infisical get_repo
set_infisical-IsNamed i s h = h

set_infisical-AllSettled :
    (i : InfisicalState) (s : Store) → AllSettled s → AllSettled (set_infisical i s)
unfolding set_infisical get_all_stacks
set_infisical-AllSettled i s h = h

module _ (env : SyncEnv) (h : Host)
    (list_containers : List Cmd → Bytes → Option (List ContainerDetail)) (stopped : List Cmd → Bool)
    (clone_dir : Bytes) (created : List Cmd → Option ℕ)
    (others : ℕ → Option ClientHolder → Option ClientHolder) where
  -- A refresh keeps what a round of syncs keeps.
  pub refresh-RefreshKeeps :
      (m : LoopState)
      → RefreshKeeps m.sync.world
          (refresh env h list_containers stopped clone_dir created others m).sync.world
  unfolding refresh_containers
  refresh-RefreshKeeps m =
      refresh_with-RefreshKeeps list_containers
        (connect (created m.sync.world.trace) others m.holder).client m.sync.world

  pub refresh-IsSound :
      (m : LoopState)
      → IsSound env m.sync
      → IsSound env (refresh env h list_containers stopped clone_dir created others m).sync
  refresh-IsSound m k =
      let keeps = refresh-RefreshKeeps m in
      record {
        fresh = k.fresh;
        named = λ name r e. k.named name r (sym (keeps.repos name) ∙ e);
        settled = keeps.settled k.settled;
      }

  pub make_plan-IsSound :
      (s : SyncState)
      → IsSound env s
      → IsSound env (make_plan env h list_containers stopped clone_dir created others s).1
  unfolding make_plan
  make_plan-IsSound s k = record {
    fresh = k.fresh;
    named = set_infisical-IsNamed _ s.world.store k.named;
    settled = set_infisical-AllSettled _ s.world.store k.settled;
  }

  pub do_sync_round-IsSound :
      (plan : Plan) (m : LoopState)
      → IsSound env m.sync
      → IsSound env
          (do_sync_round env h list_containers stopped clone_dir created others plan m).sync
  unfolding do_sync_round
  do_sync_round-IsSound plan m k =
      let r =
        sync_round env h list_containers stopped clone_dir plan.cfg plan.interval plan.repos
          m.sync in
      let sound =
        sync_round-IsSound env h list_containers stopped clone_dir plan.cfg plan.interval plan.repos
          m.sync k in
      elim (Bool-cases r.0) [
        | inl e ↦ rw (e, do_sync_round) (refresh-IsSound (record m { sync = r.1 }) sound)
        | inr e ↦ rw (e, do_sync_round) sound
      ]

  sync_triggered-IsSound :
      (cfg : InfisicalConfig) (interval : ℤ) (repos : List RepoDb) (s : SyncState)
      → IsSound env s
      → IsSound env (
          sync_triggered env h list_containers stopped clone_dir created others cfg interval repos
            s)
  unfolding sync_triggered
  sync_triggered-IsSound cfg interval [] s k = k
  sync_triggered-IsSound cfg interval (repo ∷ repos) s k =
      sync_triggered-IsSound cfg interval repos _ (
        sync-IsSound env h list_containers stopped clone_dir cfg interval repo
          (record s { schedule = reset_backoff repo.name s.schedule })
          (record { fresh = k.fresh; named = k.named; settled = k.settled }))

  pub with_db-IsSound : (db : Database) (s : SyncState) → IsSound env s → IsSound env (with_db db s)
  with_db-IsSound db s k = record { fresh = k.fresh; named = k.named; settled = k.settled }

  handle_event-IsSound :
      (plan : Plan) (ev : Event) (m : LoopState)
      → IsSound env m.sync
      → IsSound env
          (handle_event env h list_containers stopped clone_dir created others plan ev m).sync
  unfolding handle_event handle_triggers
  handle_event-IsSound plan shutdown m k = k
  handle_event-IsSound plan (tick db) m k = with_db-IsSound db m.sync k
  handle_event-IsSound plan (triggers first more db) m k =
      let waited = with_db db m.sync in
      let (cfg, db') = load_infisical env.decrypt db in
      refresh-IsSound _ (
        sync_triggered-IsSound cfg plan.interval (to_sync plan.repos (first ∷ more))
          (with_db db' waited) (with_db-IsSound db' waited (with_db-IsSound db m.sync k)))

  iterate-IsSound :
      (ev : Event) (m : LoopState)
      → IsSound env m.sync
      → IsSound env (iterate env h list_containers stopped clone_dir created others ev m).sync
  unfolding iterate
  iterate-IsSound ev m k =
      let (plan, s) = make_plan env h list_containers stopped clone_dir created others m.sync in
      handle_event-IsSound plan ev _
        (do_sync_round-IsSound plan (record m { sync = s }) (make_plan-IsSound m.sync k))

  -- Whatever ticks, triggers and changes of the database the loop meets, whatever fails and wherever
  -- it is stopped: no file of a key is where the next temporary file is to be, each repository's
  -- state is stored under its name, and no stack is left in the state "applying".
  pub run-IsSound :
      (evs : List Event) (m : LoopState)
      → IsSound env m.sync
      → IsSound env (run env h list_containers stopped clone_dir created others evs m).sync
  unfolding run
  run-IsSound [] m k = k
  run-IsSound (shutdown ∷ evs) m k = iterate-IsSound shutdown m k
  run-IsSound (tick db ∷ evs) m k = run-IsSound evs _ (iterate-IsSound (tick db) m k)
  run-IsSound (triggers n ns db ∷ evs) m k =
      run-IsSound evs _ (iterate-IsSound (triggers n ns db) m k)
