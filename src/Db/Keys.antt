-- ===== src/Db/Keys.antt =====
-- internal/db/ssh_key_store.go, in the same way as the repositories.
use stackd.Base.{
  ◌||◌, not, Bool, Option, none, some, List, [], ◌∷◌, ◌++◌, map, keep, any, if◌then◌else◌, Bytes, ℤ,
  str_eq, is_empty,
}
use stackd.Db.{DbError, no_rows, failed, Result, ok, err, KeyRow, Database, fails, after_statement}
use stackd.Db.Repos.{str_leb, first}

-- SSHKeyDB
pub record SshKeyDb : Type 0 where
  pub id : Bytes
  pub name : Bytes
  pub private_key_enc : Bytes
  pub public_key : Bytes
  pub created_at : ℤ

abbrev pub scan_key : (Bytes → ℤ) → KeyRow → SshKeyDb
scan_key parse_time k = record {
  id = k.id;
  name = k.name;
  private_key_enc = k.private_key_enc;
  public_key = k.public_key;
  created_at = parse_time k.created_at;
}

insert_key_by_name : KeyRow → List KeyRow → List KeyRow
insert_key_by_name k [] = k ∷ []
insert_key_by_name k (q ∷ rows) =
    if str_leb k.name q.name then k ∷ q ∷ rows else q ∷ insert_key_by_name k rows

order_keys_by_name : List KeyRow → List KeyRow
order_keys_by_name [] = []
order_keys_by_name (k ∷ rows) = insert_key_by_name k (order_keys_by_name rows)

-- ListSSHKeys
unfoldable pub list_ssh_keys : (Bytes → ℤ) → Database → Result (List SshKeyDb) × Database
unfolding order_keys_by_name insert_key_by_name
list_ssh_keys parse_time db = (
  if fails db then err failed else ok (map (scan_key parse_time) (order_keys_by_name db.ssh_keys)),
  after_statement db,
)

abbrev one_key : (Bytes → ℤ) → Option KeyRow → Result SshKeyDb
one_key parse_time none = err no_rows
one_key parse_time (some k) = ok (scan_key parse_time k)

-- GetSSHKey
unfoldable pub get_ssh_key : (Bytes → ℤ) → Bytes → Database → Result SshKeyDb × Database
get_ssh_key parse_time id db = (
  if fails db
      then err failed
      else one_key parse_time (first (λ (k : KeyRow). str_eq k.id id) db.ssh_keys),
  after_statement db,
)

abbrev pub new_key_row : (uuid now : Bytes) → SshKeyDb → KeyRow
new_key_row uuid now k = record {
  id = if is_empty k.id then uuid else k.id;
  name = k.name;
  private_key_enc = k.private_key_enc;
  public_key = k.public_key;
  created_at = now;
}

abbrev pub key_conflicts : KeyRow → KeyRow → Bool
key_conflicts k q = str_eq q.id k.id || str_eq q.name k.name

-- CreateSSHKey
unfoldable pub create_ssh_key : (uuid now : Bytes) → SshKeyDb → Database → Option DbError × Database
create_ssh_key uuid now k db =
    let row = new_key_row uuid now k in
    if fails db || any (key_conflicts row) db.ssh_keys
    then (some failed, after_statement db)
    else (none, record (after_statement db) { ssh_keys = db.ssh_keys ++ row ∷ [] })

-- DeleteSSHKey
unfoldable pub delete_ssh_key : Bytes → Database → Option DbError × Database
delete_ssh_key id db = if fails db then (some failed, after_statement db) else (
  none,
  record (after_statement db) {
    ssh_keys = keep (λ (q : KeyRow). not (str_eq q.id id)) db.ssh_keys;
  },
)
