-- ===== src/Db/Settings.antt =====
-- internal/db/settings_store.go
pub mod Laws
mod Examples
use stackd.Base.{
  ℕ, ◌==◌, ◌||◌, not, Bool, true, false, Option, none, some, List, [], ◌∷◌, ◌++◌, any,
  if◌then◌else◌, Bytes, bytes, str_eq, Assoc, insert,
}
use stackd.Db.{
  DbError, no_rows, failed, Result, ok, err, SettingRow, Database, fails, after_statement, of_null,
  bool_int,
}
use stackd.Db.Repos.{first}

abbrev found : Option SettingRow → Result (Bytes × Bool)
found none = err no_rows
found (some r) = ok (of_null r.value, not (r.sensitive == 0))

-- GetSetting
unfoldable pub get_setting : Bytes → Database → Result (Bytes × Bool) × Database
get_setting key db = (
  if fails db then err failed else found (first (λ (r : SettingRow). str_eq r.key key) db.settings),
  after_statement db,
)

-- sensitiveKeys
abbrev pub is_sensitive_key : Bytes → Bool
is_sensitive_key key = str_eq key (bytes "dashboard_token") || str_eq key (bytes "infisical_token")

-- INSERT … ON CONFLICT(key) DO UPDATE SET value, updated_at
unfoldable pub upsert : (now key value : Bytes) → List SettingRow → List SettingRow
upsert now key value [] =
    record {
      key = key;
      value = some value;
      sensitive = bool_int (is_sensitive_key key);
      updated_at = now;
    }
    ∷ []
upsert now key value (r ∷ rows) =
    if str_eq r.key key
    then record r { value = some value; updated_at = now } ∷ rows
    else r ∷ upsert now key value rows

-- SetSetting
unfoldable pub set_setting : (now key value : Bytes) → Database → Option DbError × Database
set_setting now key value db =
    if fails db
    then (some failed, after_statement db)
    else (none, record (after_statement db) { settings = upsert now key value db.settings })

-- The loop of GetAllSettings over the rows: a sensitive value is replaced by "".
pub read_settings : Assoc Bytes → List SettingRow → Assoc Bytes
read_settings result [] = result
read_settings result (r ∷ rows) =
    read_settings (insert r.key (if r.sensitive == 0 then of_null r.value else []) result) rows

-- GetAllSettings
unfoldable pub get_all_settings : Database → Result (Assoc Bytes) × Database
get_all_settings db =
    (if fails db then err failed else ok (read_settings [] db.settings), after_statement db)
