-- ===== src/Main/Loop/Examples.antt =====
-- Tests of the loop with one repository.
use stackd.Base.{
  ℕ, ◌≤◌, inl, inr, refl, Option, none, some, List, [], ◌∷◌, Bytes, bytes, pos, ℤ, length, lookup,
  insert, text,
}
use stackd.Process.{Cmd}
use stackd.Docker.Holder.{ClientHolder}
use stackd.Sync.Repo.Examples.{host, list_containers, config, env, repo, state}
use stackd.Main.Round.Laws.{IsSound}
use stackd.Main.Round.Examples.{never, state-IsSound}
use stackd.Db.{RepoRow}
use stackd.Db.Repos.{list_repos, order_by_name, insert_by_name}
use stackd.Server.Limiter.{RateLimiter, new_rate_limiter, allow}
use stackd.Server.Trigger.{capacity, enqueue, handle_sync, drain}
use stackd.Server.Trigger.Laws.{after, answered_queued}
use stackd.Main.Loop.{
  iterate, make_plan, LoopState, Plan, Event, shutdown, tick, triggers, handle_triggers, run,
}
use stackd.Main.Loop.Laws.{run-IsSound}
use stackd.Main.Loop.Queue.{queued-synced}
use stackd.Main.Loop.Triggers.{Answered, Retried, handle_triggers-Answered}

abbrev pub created : List Cmd → Option ℕ
created _ = some 1

abbrev pub alone : ℕ → Option ClientHolder → Option ClientHolder
alone n h = h

abbrev pub start : LoopState
start = record { sync = state; holder = some (record { client = none }) }

abbrev plan : Plan
plan = record { repos = repo ∷ []; cfg = config; interval = pos 60 }

abbrev events : List Event
events = tick state.db ∷ triggers (bytes "infra") [] state.db ∷ shutdown ∷ []

run-IsSound_example :
    IsSound env (run env host list_containers never (bytes "/data") created alone events start).sync
run-IsSound_example =
    run-IsSound env host list_containers never (bytes "/data") created alone events start
      state-IsSound

handle_triggers-Answered_example :
    Answered
      (bytes "infra")
      (bytes "infra" ∷ [])
      state
      (handle_triggers env host list_containers never
        (bytes "/data")
        created
        alone
        plan
        (bytes "infra" ∷ [])
        start).sync
handle_triggers-Answered_example =
    handle_triggers-Answered env host list_containers never (bytes "/data") created alone plan
      (bytes "infra" ∷ []) [] repo [] start refl state-IsSound tt tt

-- The same repository in the table of the database.
abbrev row : RepoRow
row = record {
  id = repo.id;
  name = repo.name;
  url = repo.url;
  branch = repo.branch;
  remote = repo.remote;
  auth_type = repo.auth_type;
  ssh_key_id = some repo.ssh_key_id;
  pat_enc = none;
  stacks_dir = repo.stacks_dir;
  sync_interval = repo.sync_interval;
  enabled = 1;
  created_at = [];
  updated_at = [];
}

abbrev with_row : LoopState
with_row = record start { sync = record state { db = record state.db { repos = row ∷ [] } } }

with_row-IsSound : IsSound env with_row.sync
with_row-IsSound = record {
  fresh = state-IsSound.fresh;
  named = state-IsSound.named;
  settled = state-IsSound.settled;
}

abbrev limiter : RateLimiter
limiter = new_rate_limiter (pos 10)

abbrev calls : List (Bytes × ℤ)
calls = (bytes "infra", pos 5) ∷ (bytes "apps", pos 4) ∷ []

queued-synced_example :
    (length (after limiter calls).queue ≤ capacity)
    × Retried
        (bytes "infra")
        (iterate env host list_containers never
          (bytes "/data")
          created
          alone
          (triggers (bytes "apps") (bytes "infra" ∷ []) state.db)
          with_row).sync
unfolding after answered_queued handle_sync enqueue allow drain lookup insert text list_repos
    order_by_name insert_by_name make_plan
queued-synced_example =
    queued-synced env host list_containers never (bytes "/data") created alone limiter calls
      (bytes "apps") (bytes "infra" ∷ []) state.db [] repo [] with_row refl (inr (inl refl)) refl tt
      tt with_row-IsSound
