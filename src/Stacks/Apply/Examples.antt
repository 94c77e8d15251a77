-- ===== src/Stacks/Apply/Examples.antt =====
-- Tests of applying the stacks of a repository.
use stackd.Base.{none, some, true, false, Option, List, [], ◌∷◌, Bytes, bytes, pos, str_eq}
use stackd.Process.{Cmd, Host}
use stackd.State.{ContainerDetail}
use stackd.State.Store.{new}
use stackd.Metrics.{no_metrics}
use stackd.Stacks.Compose.{InfisicalConfig}
use stackd.Stacks.Apply.{World}

-- A host with the stacks web and dns, of which dns has no compose file.
abbrev host : Host
host = record {
  run = λ _ _. record {
    output = bytes "no such image";
    stdout = [];
    exit_stderr = [];
    failure = some (bytes "exit status 1");
  };
  exists = λ _ path. str_eq path (bytes "/data/infra/web/compose.yml");
  read_file = λ _ _. none;
  read_dir = λ _ _. some (
      record { name = bytes "web"; is_dir = true }
      ∷ record { name = bytes "dns"; is_dir = true }
      ∷ record { name = bytes "README"; is_dir = false }
      ∷ []);
  now = λ _. pos 100;
  environ = [];
  known_hosts_dir = [];
}

abbrev list_containers : List Cmd → Bytes → Option (List ContainerDetail)
list_containers _ _ = none

abbrev config : InfisicalConfig
config = record { token = []; env = bytes "prod"; url = []; project_id = [] }

abbrev start : World
start = record { trace = []; store = new; metrics = no_metrics; events = [] }

abbrev dir : Bytes
dir = bytes "/data/infra"
