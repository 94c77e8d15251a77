-- ===== src/Main/Startup.antt =====
-- main.go: what main reads from the environment, the scan at its start, and the seed of a
-- development state. Opening the database, the directories and the goroutines are left out.
mod Laws
mod Examples
use stackd.Base.{
  ℕ, ◌*◌, ◌+ℤ◌, Bool, true, false, Option, none, some, List, [], ◌∷◌, if◌then◌else◌, keep, Bytes,
  bytes, is_empty, str_eq, to_lower, ℤ, pos, ltb_ℤ, sub_ℕ, atoi,
}
use stackd.Process.{Cmd, Host}
use stackd.Paths.{join_path}
use stackd.State.{RepoState, SyncStatus, StackState, ApplyStatus, ContainerDetail, no_stack}
use stackd.State.Store.{Store, new, update_repo, update_stack, set_infisical}
use stackd.Schedule.{second}
use stackd.Db.{Result, ok, err, Database}
use stackd.Db.Repos.{RepoDb, list_repos}
use stackd.Stacks.Compose.{InfisicalConfig}
use stackd.Docker.Holder.{ClientHolder}
use stackd.Sync.Auth.{SyncEnv, SyncState}
use stackd.Main.Config.{load_infisical, load_default_interval}
use stackd.Main.Round.{sync}
use stackd.Main.Loop.{LoopState, with_db, refresh}

-- What main takes from the environment.
pub record Settings : Type 0 where
  pub db_url : Bytes
  pub port : ℤ
  pub secret_key : Bytes
  pub clone_dir : Bytes
  pub bind_addr : Bytes
  pub ssh_dir : Bytes
  pub dev_seed : Bool

-- A variable, or its default where it is "".
abbrev pub or_default : Bytes → Bytes → Bytes
or_default d v = if is_empty v then d else v

abbrev pub port_of : Option ℤ → ℤ
port_of none = pos 8080
port_of (some v) = if ltb_ℤ (pos 0) v then v else pos 8080

-- The bootstrap of main; `none` where it ends at once. Atoi fails on "".
unfoldable pub bootstrap : (getenv : Bytes → Bytes) → Option Settings
bootstrap getenv =
    let clone_dir = or_default (bytes "/var/lib/stackd/repos") (getenv (bytes "CLONE_DIR")) in
    if is_empty (getenv (bytes "SECRET_KEY"))
    then none
    else some (record {
      db_url = or_default (bytes "sqlite://stackd.db") (getenv (bytes "DB_URL"));
      port = port_of (atoi (getenv (bytes "PORT")));
      secret_key = getenv (bytes "SECRET_KEY");
      clone_dir = clone_dir;
      bind_addr = or_default (bytes "0.0.0.0") (getenv (bytes "BIND_ADDR"));
      ssh_dir =
          or_default (join_path clone_dir (bytes ".ssh")) (getenv (bytes "SSH_KNOWN_HOSTS_DIR"));
      dev_seed = str_eq (to_lower (getenv (bytes "DEV_SEED"))) (bytes "true");
    })

-- now.Add(-n * time.Minute)
abbrev minutes_before : ℕ → ℤ → ℤ
minutes_before n now = now +ℤ sub_ℕ 0 (n * (60 * second))

abbrev seeded : ℤ → Bytes → ℕ → ApplyStatus → Bytes → StackState
seeded now name minutes status last_error = record no_stack {
  name = name;
  repo_name = bytes "dockers";
  last_apply = minutes_before minutes now;
  status = status;
  last_error = last_error;
}

-- seedDevState
unfoldable pub seed_dev_state : (now : ℤ) → Store → Store
seed_dev_state now s =
    set_infisical (record { enabled = true; env = bytes "prod" })
      (update_stack
        (seeded now (bytes "redis") 30 ApplyStatus.error
          (bytes "image pull failed: rate limit exceeded"))
        (update_stack (seeded now (bytes "litellm") 1 ApplyStatus.applying []) (
          update_stack (seeded now (bytes "plex") 15 ApplyStatus.ok []) (
            update_stack (seeded now (bytes "monitorss") 3 ApplyStatus.ok []) (
              update_repo
                (record {
                  name = bytes "cluster";
                  last_sync = minutes_before 12 now;
                  last_sha = bytes "b8e2d47";
                  status = SyncStatus.error;
                  last_error = bytes "git pull: exit status 1";
                })
                (update_repo
                  (record {
                    name = bytes "dockers";
                    last_sync = minutes_before 3 now;
                    last_sha = bytes "a3f9c12";
                    status = SyncStatus.ok;
                    last_error = [];
                  })
                  s))))))

module _ (env : SyncEnv) (h : Host)
    (list_containers : List Cmd → Bytes → Option (List ContainerDetail)) (stopped : List Cmd → Bool)
    (clone_dir : Bytes) (created : List Cmd → Option ℕ)
    (others : ℕ → Option ClientHolder → Option ClientHolder) where
  -- The loop of the scan, over the repositories that are enabled.
  pub sync_all : InfisicalConfig → ℤ → List RepoDb → SyncState → SyncState
  sync_all cfg interval [] s = s
  sync_all cfg interval (repo ∷ repos) s =
      sync_all cfg interval repos (sync env h list_containers stopped clone_dir cfg interval repo s)

  -- Behind ListRepos, which left the database `db`.
  pub scan_listed : Result (List RepoDb) → Database → LoopState → LoopState
  unfolding sync_all
  scan_listed (err e) db m = record m { sync = with_db db m.sync }
  scan_listed (ok repos) db m =
      let (cfg, db₁) = load_infisical env.decrypt db in
      let (interval, db₂) = load_default_interval db₁ in
      refresh env h list_containers stopped clone_dir created others (record m {
        sync = sync_all cfg interval (keep (λ (r : RepoDb). r.enabled) repos) (with_db db₂ m.sync);
      })

  -- The startup scan, which syncs whatever is enabled, due or not.
  unfoldable pub startup_scan : LoopState → LoopState
  unfolding scan_listed
  startup_scan m = let (r, db) = list_repos env.parse_time m.sync.db in scan_listed r db m
