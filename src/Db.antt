-- ===== src/Db.antt =====
-- internal/db: the settings database. A statement of SQL is a function on the tables, with the
-- constraints of migrations/001_initial.up.sql. Each statement may also fail for a reason outside the
-- program: `faults` says which of the coming statements do.
pub mod Repos
pub mod Keys
pub mod Settings
pub mod Rebind
pub mod Open
use stackd.Base.{
  ℕ, Bool, true, false, Option, none, some, List, [], ◌∷◌, Bytes, ℤ, is_empty, if◌then◌else◌,
}

-- An error that wraps sql.ErrNoRows, and any other.
pub data DbError : Type 0 where
  no_rows failed : DbError

pub data Result {ℓ} (A : Type ℓ) : Type ℓ where
  ok : A → Result A
  err : DbError → Result A

-- A row of `repos`; a column that may be NULL is an Option.
pub record RepoRow : Type 0 where
  pub id : Bytes
  pub name : Bytes
  pub url : Bytes
  pub branch : Bytes
  pub remote : Bytes
  pub auth_type : Bytes
  pub ssh_key_id : Option Bytes
  pub pat_enc : Option Bytes
  pub stacks_dir : Bytes
  pub sync_interval : ℤ
  pub enabled : ℕ
  pub created_at : Bytes
  pub updated_at : Bytes

-- A row of `ssh_keys`.
pub record KeyRow : Type 0 where
  pub id : Bytes
  pub name : Bytes
  pub private_key_enc : Bytes
  pub public_key : Bytes
  pub created_at : Bytes

-- A row of `settings`.
pub record SettingRow : Type 0 where
  pub key : Bytes
  pub value : Option Bytes
  pub sensitive : ℕ
  pub updated_at : Bytes

pub record Database : Type 0 where
  pub repos : List RepoRow
  pub ssh_keys : List KeyRow
  pub settings : List SettingRow
  pub faults : List Bool

-- Whether the next statement fails, and the database behind it.
abbrev pub pop_fault : List Bool → Bool × List Bool
pop_fault [] = (false, [])
pop_fault (f ∷ fs) = (f, fs)

abbrev pub fails : Database → Bool
fails db = (pop_fault db.faults).0

abbrev pub after_statement : Database → Database
after_statement db = record db { faults = (pop_fault db.faults).1 }

-- nullStr
abbrev pub null_str : Bytes → Option Bytes
null_str s = if is_empty s then none else some s

-- The String field of a sql.NullString.
abbrev pub of_null : Option Bytes → Bytes
of_null none = []
of_null (some s) = s

-- boolInt
abbrev pub bool_int : Bool → ℕ
bool_int true = 1
bool_int false = 0
