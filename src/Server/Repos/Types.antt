-- ===== src/Server/Repos/Types.antt =====
-- internal/server/settings_handlers.go: the requests and the answers of the repositories' handlers.
use stackd.Base.{not, Bool, Option, Bytes, is_empty, ℤ}
use stackd.Git.Validate.{Url}
use stackd.Db.Repos.{RepoDb}

pub record Env : Type 0 where
  pub parse_url : Bytes → Option Url
  pub parse_time : Bytes → ℤ
  pub encrypt : Bytes → Option Bytes
  pub uuid : Bytes
  pub now : Bytes

-- repoRequest; `enabled` is a pointer.
pub record RepoRequest : Type 0 where
  pub name : Bytes
  pub url : Bytes
  pub branch : Bytes
  pub remote : Bytes
  pub auth_type : Bytes
  pub ssh_key_id : Bytes
  pub pat : Bytes
  pub stacks_dir : Bytes
  pub sync_interval : ℤ
  pub enabled : Option Bool

-- repoResponse
pub record RepoResponse : Type 0 where
  pub id : Bytes
  pub name : Bytes
  pub url : Bytes
  pub branch : Bytes
  pub remote : Bytes
  pub auth_type : Bytes
  pub ssh_key_id : Bytes
  pub has_pat : Bool
  pub stacks_dir : Bytes
  pub sync_interval : ℤ
  pub enabled : Bool
  pub created_at : ℤ
  pub updated_at : ℤ

abbrev pub repo_to_response : RepoDb → RepoResponse
repo_to_response r = record {
  id = r.id;
  name = r.name;
  url = r.url;
  branch = r.branch;
  remote = r.remote;
  auth_type = r.auth_type;
  ssh_key_id = r.ssh_key_id;
  has_pat = not (is_empty r.pat_enc);
  stacks_dir = r.stacks_dir;
  sync_interval = r.sync_interval;
  enabled = r.enabled;
  created_at = r.created_at;
  updated_at = r.updated_at;
}
