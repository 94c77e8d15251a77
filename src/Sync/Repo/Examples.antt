-- ===== src/Sync/Repo/Examples.antt =====
-- Tests of the sync of a repository with an SSH key, on a host where every command succeeds.
use stackd.Base.{refl, none, some, true, Option, List, [], ◌∷◌, Bytes, bytes, pos, lookup}
use stackd.Process.{Cmd, Host}
use stackd.State.{ContainerDetail}
use stackd.State.Store.{new, get_all_stacks}
use stackd.Metrics.{no_metrics}
use stackd.Db.{KeyRow}
use stackd.Db.Repos.{RepoDb}
use stackd.Stacks.Compose.{InfisicalConfig}
use stackd.Stacks.Apply.Laws.{AllSettled}
use stackd.Sync.Auth.{SyncEnv, SyncState}
use stackd.Sync.Auth.Laws.{IsFresh}
use stackd.Sync.Repo.{sync_repo_from_db}
use stackd.Sync.Repo.Laws.{SyncOutcome, sync_repo_from_db-SyncOutcome}

abbrev pub host : Host
host = record {
  run = λ _ _. record { output = []; stdout = bytes "c0ffee\n"; exit_stderr = []; failure = none };
  exists = λ _ _. true;
  read_file = λ _ _. none;
  read_dir = λ _ _. some (record { name = bytes "web"; is_dir = true } ∷ []);
  now = λ _. pos 100;
  environ = [];
  known_hosts_dir = [];
}

abbrev pub list_containers : List Cmd → Bytes → Option (List ContainerDetail)
list_containers _ _ = some []

abbrev pub config : InfisicalConfig
config = record { token = []; env = bytes "prod"; url = []; project_id = [] }

abbrev pub env : SyncEnv
env = record {
  decrypt = λ s. some s;
  temp_file = λ files. some (bytes "/tmp/stackd-key-1");
  can_write = λ path. true;
  can_remove = λ path. true;
  encode = λ s. s;
  parse_time = λ s. pos 0;
  describe = λ e. bytes "failed at https://u:tok@h/x";
}

abbrev key : KeyRow
key = record {
  id = bytes "k1";
  name = bytes "deploy";
  private_key_enc = bytes "enc";
  public_key = [];
  created_at = [];
}

abbrev pub repo : RepoDb
repo = record {
  id = bytes "r1";
  name = bytes "infra";
  url = bytes "git@h:infra.git";
  branch = bytes "main";
  remote = bytes "origin";
  auth_type = bytes "ssh";
  ssh_key_id = bytes "k1";
  pat_enc = [];
  stacks_dir = bytes ".";
  sync_interval = pos 60;
  enabled = true;
  created_at = pos 0;
  updated_at = pos 0;
}

abbrev pub state : SyncState
state = record {
  world = record { trace = []; store = new; metrics = no_metrics; events = [] };
  schedule = record { backoffs = []; next_due = [] };
  db = record { repos = []; ssh_keys = key ∷ []; settings = []; faults = [] };
  key_files = [];
}

pub env-IsFresh : IsFresh env []
unfolding lookup
env-IsFresh path e = (refl, refl)

sync_repo_from_db-SyncOutcome_example :
    SyncOutcome
      (bytes "infra")
      state
      (sync_repo_from_db env host list_containers config (bytes "/data") (pos 60) repo state)
sync_repo_from_db-SyncOutcome_example =
    sync_repo_from_db-SyncOutcome env host list_containers config (bytes "/data") (pos 60) repo
      state env-IsFresh

pub no_stacks-AllSettled : AllSettled new
unfolding new get_all_stacks
no_stacks-AllSettled = tt
