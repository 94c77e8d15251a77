-- ===== src/Db/Repos.antt =====
-- internal/db/repo_store.go. The texts of a new identifier and of the current time are arguments, and
-- `parse_time` is time.Parse with the layout time.DateTime, zero where that fails.
pub mod Laws
use stackd.Base.{
  ℕ, ◌==◌, ◌||◌, ◌&&◌, not, Bool, true, false, Option, none, some, List, [], ◌∷◌, ◌++◌, map, keep,
  any, if◌then◌else◌, leb, ltb, Bytes, ℤ, str_eq, is_empty,
}
use stackd.Db.{
  DbError, no_rows, failed, Result, ok, err, RepoRow, Database, fails, after_statement, null_str,
  of_null, bool_int,
}

-- RepoDB
pub record RepoDb : Type 0 where
  pub id : Bytes
  pub name : Bytes
  pub url : Bytes
  pub branch : Bytes
  pub remote : Bytes
  pub auth_type : Bytes
  pub ssh_key_id : Bytes
  pub pat_enc : Bytes
  pub stacks_dir : Bytes
  pub sync_interval : ℤ
  pub enabled : Bool
  pub created_at : ℤ
  pub updated_at : ℤ

-- scanRepo, of a row that was read without error.
abbrev pub scan_repo : (Bytes → ℤ) → RepoRow → RepoDb
scan_repo parse_time r = record {
  id = r.id;
  name = r.name;
  url = r.url;
  branch = r.branch;
  remote = r.remote;
  auth_type = r.auth_type;
  ssh_key_id = of_null r.ssh_key_id;
  pat_enc = of_null r.pat_enc;
  stacks_dir = r.stacks_dir;
  sync_interval = r.sync_interval;
  enabled = not (r.enabled == 0);
  created_at = parse_time r.created_at;
  updated_at = parse_time r.updated_at;
}

-- ORDER BY name, by bytes.
unfoldable pub str_leb : Bytes → Bytes → Bool
str_leb [] t = true
str_leb (c ∷ s) [] = false
str_leb (c ∷ s) (d ∷ t) = ltb c d || c == d && str_leb s t

unfoldable pub insert_by_name : RepoRow → List RepoRow → List RepoRow
insert_by_name r [] = r ∷ []
insert_by_name r (q ∷ rows) =
    if str_leb r.name q.name then r ∷ q ∷ rows else q ∷ insert_by_name r rows

unfoldable pub order_by_name : List RepoRow → List RepoRow
unfolding insert_by_name
order_by_name [] = []
order_by_name (r ∷ rows) = insert_by_name r (order_by_name rows)

-- The first row that passes a test, as QueryRow has it.
abbrev pub first : {A : Type 0} → (A → Bool) → List A → Option A
first p [] = none
first p (x ∷ xs) = if p x then some x else first p xs

-- ListRepos
unfoldable pub list_repos : (Bytes → ℤ) → Database → Result (List RepoDb) × Database
list_repos parse_time db = (
  if fails db then err failed else ok (map (scan_repo parse_time) (order_by_name db.repos)),
  after_statement db,
)

abbrev one_row : (Bytes → ℤ) → Option RepoRow → Result RepoDb
one_row parse_time none = err no_rows
one_row parse_time (some r) = ok (scan_repo parse_time r)

-- GetRepo
unfoldable pub get_repo : (Bytes → ℤ) → Bytes → Database → Result RepoDb × Database
get_repo parse_time id db = (
  if fails db
      then err failed
      else one_row parse_time (first (λ (r : RepoRow). str_eq r.id id) db.repos),
  after_statement db,
)

-- GetRepoByName
unfoldable pub get_repo_by_name : (Bytes → ℤ) → Bytes → Database → Result RepoDb × Database
get_repo_by_name parse_time name db = (
  if fails db
      then err failed
      else one_row parse_time (first (λ (r : RepoRow). str_eq r.name name) db.repos),
  after_statement db,
)

-- The row that CreateRepo inserts.
abbrev pub new_row : (uuid now : Bytes) → RepoDb → RepoRow
new_row uuid now r = record {
  id = if is_empty r.id then uuid else r.id;
  name = r.name;
  url = r.url;
  branch = r.branch;
  remote = r.remote;
  auth_type = r.auth_type;
  ssh_key_id = null_str r.ssh_key_id;
  pat_enc = null_str r.pat_enc;
  stacks_dir = r.stacks_dir;
  sync_interval = r.sync_interval;
  enabled = bool_int r.enabled;
  created_at = now;
  updated_at = now;
}

-- PRIMARY KEY (id), UNIQUE (name)
abbrev pub conflicts : RepoRow → RepoRow → Bool
conflicts r q = str_eq q.id r.id || str_eq q.name r.name

-- CreateRepo
unfoldable pub create_repo : (uuid now : Bytes) → RepoDb → Database → Option DbError × Database
create_repo uuid now r db =
    let row = new_row uuid now r in
    if fails db || any (conflicts row) db.repos
    then (some failed, after_statement db)
    else (none, record (after_statement db) { repos = db.repos ++ row ∷ [] })

-- The columns that UpdateRepo sets, in a row.
abbrev pub set_row : Bytes → RepoDb → RepoRow → RepoRow
set_row now r q = record {
  id = q.id;
  name = r.name;
  url = r.url;
  branch = r.branch;
  remote = r.remote;
  auth_type = r.auth_type;
  ssh_key_id = null_str r.ssh_key_id;
  pat_enc = null_str r.pat_enc;
  stacks_dir = r.stacks_dir;
  sync_interval = r.sync_interval;
  enabled = bool_int r.enabled;
  created_at = q.created_at;
  updated_at = now;
}

-- UNIQUE (name), against the rows that the statement does not set.
abbrev pub takes_name : RepoDb → RepoRow → Bool
takes_name r q = not (str_eq q.id r.id) && str_eq q.name r.name

-- UpdateRepo. Where no row has the identifier, nothing is set and there is no error.
unfoldable pub update_repo : Bytes → RepoDb → Database → Option DbError × Database
update_repo now r db =
    if fails db || any (λ (q : RepoRow). str_eq q.id r.id) db.repos && any (takes_name r) db.repos
    then (some failed, after_statement db)
    else (
      none,
      record (after_statement db) {
        repos = map (λ (q : RepoRow). if str_eq q.id r.id then set_row now r q else q) db.repos;
      },
    )

-- DeleteRepo
unfoldable pub delete_repo : Bytes → Database → Option DbError × Database
delete_repo id db = if fails db then (some failed, after_statement db) else (
  none,
  record (after_statement db) { repos = keep (λ (q : RepoRow). not (str_eq q.id id)) db.repos },
)
