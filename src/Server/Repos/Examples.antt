-- ===== src/Server/Repos/Examples.antt =====
-- Tests of the handlers of the repositories.
use stackd.Base.{some, none, List, [], ◌∷◌, bytes, pos}
use stackd.Db.{Database}
use stackd.Server.Repos.{Env, RepoRequest, handle_create_repo}
use stackd.Server.Repos.Preserves.{IsValidTable}
use stackd.Server.Repos.Requests.{
  Request, create, update, delete, list, handle_all, handle_all-IsValid,
}
use stackd.Server.Repos.Errors.{CreateOutcome, handle_create_repo-CreateOutcome}

abbrev env : Env
env = record {
  parse_url = λ s. some (record { scheme = bytes "https"; host = bytes "example.com" });
  parse_time = λ s. pos 0;
  encrypt = λ s. some (bytes "enc:");
  uuid = bytes "4f2a";
  now = bytes "2026-01-01T00:00:00Z";
}

abbrev empty : Database
empty = record { repos = []; ssh_keys = []; settings = []; faults = [] }

abbrev infra : RepoRequest
infra = record {
  name = bytes "infra";
  url = bytes "https://example.com/infra.git";
  branch = [];
  remote = [];
  auth_type = bytes "pat";
  ssh_key_id = [];
  pat = bytes "tok";
  stacks_dir = [];
  sync_interval = pos 0;
  enabled = none;
}

abbrev requests : List Request
requests =
    create (bytes "1") (bytes "t1") (some infra)
    ∷ create (bytes "2") (bytes "t2") (some (record infra { name = bytes ".." }))
    ∷ update (bytes "t3") (bytes "1") (some (record infra { branch = bytes "-x" }))
    ∷ delete (bytes "2")
    ∷ list
    ∷ []

handle_all-IsValid_example : IsValidTable env (handle_all env requests empty)
handle_all-IsValid_example = handle_all-IsValid env requests empty tt

handle_create_repo-CreateOutcome_example :
    CreateOutcome env empty infra
      (handle_create_repo env (some infra) empty).0
      (handle_create_repo env (some infra) empty).1
handle_create_repo-CreateOutcome_example = handle_create_repo-CreateOutcome env empty infra
