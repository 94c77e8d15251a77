-- ===== src/Server/Repos.antt =====
-- internal/server/settings_handlers.go: the handlers of the repositories.
-- A request's body is `none` where it is no JSON. What the handlers call outside the program is the
-- record `Env`; `uuid` and `now` are the values that newUUID and time.Now give in this call.
mod Types
mod Validity
mod Preserves
mod Requests
mod Errors
mod Examples
pub use Types.*
use stackd.Base.{
  ℕ, ◌||◌, not, Bool, true, false, Option, none, some, List, [], ◌∷◌, map, if◌then◌else◌, Bytes,
  bytes, is_empty, str_eq, ℤ, pos, ltb_ℤ,
}
use stackd.Git.Validate.{Error, Url, validate_repo_name, validate_repo_url, validate_ref}
use stackd.Db.{DbError, no_rows, failed, Result, ok, err, Database}
use stackd.Db.Repos
use stackd.Db.Repos.{RepoDb, first}
use stackd.Server.Http.{
  Body, message, rejected, done, value, Response, json_ok, json_error, Step, halt, go, ◌>>=◌, ◌>>◌,
  require,
}

-- handleListRepos
pub handle_list_repos : Env → Database → Response (List RepoResponse) × Database
handle_list_repos env db =
    let (r, db') = Repos.list_repos env.parse_time db in
    (
      elim r [
        | err e ↦ json_error (message (bytes "failed to list repos")) 500
        | ok repos ↦ json_ok (value (map repo_to_response repos))
      ],
      db',
    )

-- if s == "" { s = d }
abbrev pub default_to : Bytes → Bytes → Bytes
default_to d s = if is_empty s then d else s

abbrev or_true : Option Bool → Bool
or_true none = true
or_true (some b) = b

-- The value that replaces the PAT: "" where there is none.
pub encrypt_pat : Env → Bytes → Step RepoResponse Bytes
encrypt_pat env pat = if is_empty pat then go [] else elim (env.encrypt pat) [
  | none ↦ halt (json_error (message (bytes "failed to encrypt PAT")) 500)
  | some enc ↦ go enc
]

abbrev fail_if : Bool → Bytes → Step RepoResponse (Unit {0})
fail_if true m = halt (json_error (message m) 400)
fail_if false m = go tt

-- handleCreateRepo up to the repository that it stores.
unfoldable pub check_create : Env → RepoRequest → Step RepoResponse RepoDb
unfolding encrypt_pat
check_create env req = do
  fail_if (is_empty req.name || is_empty req.url) (bytes "name and url are required")
  require (validate_repo_name req.name)
  require (validate_repo_url env.parse_url req.url)
  let branch = default_to (bytes "main") req.branch
  let remote = default_to (bytes "origin") req.remote
  require (validate_ref remote)
  require (validate_ref branch)
  fail_if (ltb_ℤ req.sync_interval (pos 0)) (bytes "syncInterval must not be negative")
  pat_enc ← encrypt_pat env req.pat
  go (record {
    id = [];
    name = req.name;
    url = req.url;
    branch = branch;
    remote = remote;
    auth_type = req.auth_type;
    ssh_key_id = req.ssh_key_id;
    pat_enc = pat_enc;
    stacks_dir = default_to (bytes ".") req.stacks_dir;
    sync_interval = req.sync_interval;
    enabled = or_true req.enabled;
    created_at = pos 0;
    updated_at = pos 0;
  })

abbrev created_body : Option RepoDb → Body RepoResponse
created_body none = done
created_body (some r) = value (repo_to_response r)

-- The answer once the repository is stored: its row as it is read back, or {"ok": true}.
pub created : Bytes → Result (List RepoDb) → Response RepoResponse
created name (err e) = record { status = 201; body = done }
created name (ok repos) = record {
  status = 201;
  body = created_body (first (λ (r : RepoDb). str_eq r.name name) repos);
}

-- handleCreateRepo from CreateRepo on.
pub store_created : Env → RepoDb → Database → Response RepoResponse × Database
store_created env repo db =
    let (e, db') = Repos.create_repo env.uuid env.now repo db in
    elim e [
      | some _ ↦ (json_error (message (bytes "failed to create repo")) 500, db')
      | none ↦ let (r, db'') = Repos.list_repos env.parse_time db' in (created repo.name r, db'')
    ]

abbrev run :
    {A B : Type 0} → Step A B → Database → (B → Response A × Database) → Response A × Database
run (halt r) db k = (r, db)
run (go b) db k = k b

-- handleCreateRepo
unfoldable pub handle_create_repo :
    Env → Option RepoRequest → Database → Response RepoResponse × Database
handle_create_repo env none db = (json_error (message (bytes "invalid request body")) 400, db)
handle_create_repo env (some req) db =
    run (check_create env req) db (λ repo. store_created env repo db)

-- handleGetRepo
unfoldable pub handle_get_repo : Env → Bytes → Database → Response RepoResponse × Database
handle_get_repo env id db =
    let (r, db') = Repos.get_repo env.parse_time id db in
    (
      elim r [
        | ok repo ↦ json_ok (value (repo_to_response repo))
        | err no_rows ↦ json_error (message (bytes "not found")) 404
        | err failed ↦ json_error (message (bytes "failed to get repo")) 500
      ],
      db',
    )

-- A field that is validated only where the request gives it.
abbrev require_given : (Bytes → Option Error) → Bytes → Step RepoResponse (Unit {0})
require_given check s = if is_empty s then go tt else require (check s)

abbrev or_old : Bool → Option Bool → Bool
or_old old none = old
or_old old (some b) = b

-- handleUpdateRepo from the decoded request up to the repository that it stores.
unfoldable pub check_update : Env → Bytes → RepoDb → RepoRequest → Step RepoResponse RepoDb
unfolding encrypt_pat
check_update env id existing req = do
  require_given validate_repo_name req.name
  require_given (validate_repo_url env.parse_url) req.url
  require_given validate_ref req.branch
  require_given validate_ref req.remote
  pat_enc ← encrypt_pat env req.pat
  go (record {
    id = id;
    name = default_to existing.name req.name;
    url = default_to existing.url req.url;
    branch = default_to existing.branch req.branch;
    remote = default_to existing.remote req.remote;
    auth_type = default_to existing.auth_type req.auth_type;
    ssh_key_id =
        if not (is_empty req.ssh_key_id) || str_eq req.auth_type (bytes "ssh")
        then req.ssh_key_id
        else existing.ssh_key_id;
    pat_enc = if is_empty req.pat then existing.pat_enc else pat_enc;
    stacks_dir = default_to existing.stacks_dir req.stacks_dir;
    sync_interval =
        if ltb_ℤ (pos 0) req.sync_interval then req.sync_interval else existing.sync_interval;
    enabled = or_old existing.enabled req.enabled;
    created_at = existing.created_at;
    updated_at = existing.updated_at;
  })

abbrev updated : Result RepoDb → Response RepoResponse
updated (err e) = json_ok done
updated (ok r) = json_ok (value (repo_to_response r))

-- handleUpdateRepo from UpdateRepo on.
pub store_updated : Env → RepoDb → Database → Response RepoResponse × Database
store_updated env repo db =
    let (e, db') = Repos.update_repo env.now repo db in
    elim e [
      | some _ ↦ (json_error (message (bytes "failed to update repo")) 500, db')
      | none ↦ let (r, db'') = Repos.get_repo env.parse_time repo.id db' in (updated r, db'')
    ]

abbrev update_found :
    Env → Bytes → Option RepoRequest → Result RepoDb → Database → Response RepoResponse × Database
update_found env id req (err e) db = (json_error (message (bytes "not found")) 404, db)
update_found env id none (ok existing) db =
    (json_error (message (bytes "invalid request body")) 400, db)
update_found env id (some req) (ok existing) db =
    run (check_update env id existing req) db (λ repo. store_updated env repo db)

-- handleUpdateRepo
unfoldable pub handle_update_repo :
    Env → Bytes → Option RepoRequest → Database → Response RepoResponse × Database
handle_update_repo env id req db =
    let (r, db') = Repos.get_repo env.parse_time id db in update_found env id req r db'

-- handleDeleteRepo
unfoldable pub handle_delete_repo : Bytes → Database → Response RepoResponse × Database
handle_delete_repo id db =
    let (e, db') = Repos.delete_repo id db in
    (
      elim e [
        | some _ ↦ json_error (message (bytes "failed to delete repo")) 500
        | none ↦ json_ok done
      ],
      db',
    )
