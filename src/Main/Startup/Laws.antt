-- ===== src/Main/Startup/Laws.antt =====
-- main.go: what the environment gives, and what the scan at the start keeps.
use stackd.Base.{
  ℕ, ◌≡◌, ◌≢◌, refl, inl, inr, Bool-cases, Bool, true, Option, none, some, List, [], ◌∷◌, arith,
  Bytes, bytes, is_empty, is_empty-eq-true, is_empty-eq-false, ℤ, pos, ltb_ℤ, atoi, keep,
}
use stackd.Process.{Cmd, Host}
use stackd.State.{ContainerDetail}
use stackd.Db.{Result, ok, err, Database}
use stackd.Db.Repos.{RepoDb, list_repos}
use stackd.Stacks.Compose.{InfisicalConfig}
use stackd.Docker.Holder.{ClientHolder}
use stackd.Sync.Auth.{SyncEnv, SyncState}
use stackd.Main.Config.{load_infisical, load_default_interval}
use stackd.Main.Round.Laws.{IsSound, sync-IsSound}
use stackd.Main.Loop.{LoopState, with_db}
use stackd.Main.Loop.Laws.{with_db-IsSound, refresh-IsSound}
use stackd.Main.Startup.{
  Settings, or_default, port_of, bootstrap, sync_all, scan_listed, startup_scan,
}

-- Settings that a server can start with.
pub record IsComplete (s : Settings) : Type 0 where
  pub db_url : s.db_url ≢ []
  pub port : ltb_ℤ (pos 0) s.port ≡ true
  pub secret_key : s.secret_key ≢ []
  pub clone_dir : s.clone_dir ≢ []
  pub bind_addr : s.bind_addr ≢ []

-- Main starts exactly with a secret key.
pub data Started (getenv : Bytes → Bytes) : Option Settings → Type 0 where
  no_key : getenv (bytes "SECRET_KEY") ≡ [] → Started getenv none
  started :
      (s : Settings) → getenv (bytes "SECRET_KEY") ≢ [] → IsComplete s → Started getenv (some s)

or_default-ne : (c : ℕ) (d v : Bytes) → or_default (c ∷ d) v ≢ []
or_default-ne c d [] = λ e. ground arith
or_default-ne c d (b ∷ v) = λ e. ground arith

port_of-positive : (v : Option ℤ) → ltb_ℤ (pos 0) (port_of v) ≡ true
port_of-positive none = refl
port_of-positive (some v) = elim (Bool-cases (ltb_ℤ (pos 0) v)) [
  | inl e ↦ rw e e
  | inr e ↦ rw e refl
]

-- Main ends at once exactly without a secret key; otherwise the database, the directory of clones
-- and the address to bind are not empty, and the port is positive.
pub bootstrap-Started : (getenv : Bytes → Bytes) → Started getenv (bootstrap getenv)
unfolding bootstrap
bootstrap-Started getenv = elim (Bool-cases (is_empty (getenv (bytes "SECRET_KEY")))) [
  | inl e ↦ rw (e, bootstrap) (no_key (is_empty-eq-true _ e))
  | inr e ↦
      let key = is_empty-eq-false (getenv (bytes "SECRET_KEY")) e in
      rw (e, bootstrap)
        (started _ key (record {
          db_url = or_default-ne _ _ (getenv (bytes "DB_URL"));
          port = port_of-positive (atoi (getenv (bytes "PORT")));
          secret_key = key;
          clone_dir = or_default-ne _ _ (getenv (bytes "CLONE_DIR"));
          bind_addr = or_default-ne _ _ (getenv (bytes "BIND_ADDR"));
        }))
]

module _ (env : SyncEnv) (h : Host)
    (list_containers : List Cmd → Bytes → Option (List ContainerDetail)) (stopped : List Cmd → Bool)
    (clone_dir : Bytes) (created : List Cmd → Option ℕ)
    (others : ℕ → Option ClientHolder → Option ClientHolder) where
  sync_all-IsSound :
      (cfg : InfisicalConfig) (interval : ℤ) (repos : List RepoDb) (s : SyncState)
      → IsSound env s
      → IsSound env
          (sync_all env h list_containers stopped clone_dir created others cfg interval repos s)
  unfolding sync_all
  sync_all-IsSound cfg interval [] s k = k
  sync_all-IsSound cfg interval (repo ∷ repos) s k =
      sync_all-IsSound cfg interval repos _
        (sync-IsSound env h list_containers stopped clone_dir cfg interval repo s k)

  scan_listed-IsSound :
      (r : Result (List RepoDb)) (db : Database) (m : LoopState)
      → IsSound env m.sync
      → IsSound env (scan_listed env h list_containers stopped clone_dir created others r db m).sync
  unfolding scan_listed
  scan_listed-IsSound (err e) db m k =
      with_db-IsSound env h list_containers stopped clone_dir created others db m.sync k
  scan_listed-IsSound (ok repos) db m k =
      let (cfg, db₁) = load_infisical env.decrypt db in
      let (interval, db₂) = load_default_interval db₁ in
      refresh-IsSound env h list_containers stopped clone_dir created others _ (
        sync_all-IsSound cfg interval (keep (λ (r : RepoDb). r.enabled) repos) (with_db db₂ m.sync)
          (with_db-IsSound env h list_containers stopped clone_dir created others db₂ m.sync k))

  -- The scan at the start, whatever fails in it, leaves what the loop starts from: no stack that is
  -- "applying", each repository's state under its name, and no file of a key where the next
  -- temporary file is to be.
  pub startup_scan-IsSound :
      (m : LoopState)
      → IsSound env m.sync
      → IsSound env (startup_scan env h list_containers stopped clone_dir created others m).sync
  unfolding startup_scan
  startup_scan-IsSound m k =
      let (r, db) = list_repos env.parse_time m.sync.db in scan_listed-IsSound r db m k
