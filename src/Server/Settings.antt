-- ===== src/Server/Settings.antt =====
-- internal/server/settings_handlers.go: the general settings. The token that requests are checked
-- against is `token` of `Live`, and the database stands beside it.
pub mod Laws
mod Examples
use stackd.Base.{
  ℕ, not, Bool, true, false, Option, none, some, List, [], ◌∷◌, ◌++◌, if◌then◌else◌, Bytes, bytes,
  is_empty, ℤ, pos, pos_part, ltb_ℤ, decimal, atoi, Assoc, lookup,
}
use stackd.Db.{DbError, Result, ok, err, Database}
use stackd.Db.Settings
use stackd.Server.Http.{
  Body, message, done, value, Response, json_ok, json_error, Step, halt, go, ◌>>=◌,
}

pub record Live : Type 0 where
  pub db : Database
  pub token : Bytes

-- generalSettingsRequest; its fields are pointers.
pub record SettingsRequest : Type 0 where
  pub infisical_token : Option Bytes
  pub infisical_project_id : Option Bytes
  pub infisical_env : Option Bytes
  pub infisical_url : Option Bytes
  pub git_user_name : Option Bytes
  pub git_user_email : Option Bytes
  pub dashboard_token : Option Bytes
  pub default_sync_interval : Option ℤ

-- generalSettingsResponse
pub record SettingsResponse : Type 0 where
  pub infisical_token_set : Bool
  pub infisical_project_id : Bytes
  pub infisical_env : Bytes
  pub infisical_url : Bytes
  pub git_user_name : Bytes
  pub git_user_email : Bytes
  pub dashboard_token_set : Bool
  pub default_sync_interval : ℤ

-- settings[key], "" where the key is missing.
abbrev pub setting : Bytes → Assoc Bytes → Bytes
setting key m = elim (lookup key m) [ none ↦ [] | some v ↦ v ]

-- The value of a GetSetting whose error is dropped.
abbrev pub value_or_empty : Result (Bytes × Bool) → Bytes
value_or_empty (err e) = []
value_or_empty (ok (v, _)) = v

-- A number of seconds above 0, or 60. Atoi fails on "", which stands for a missing value.
abbrev pub seconds_or_60 : Option ℤ → ℤ
seconds_or_60 none = pos 60
seconds_or_60 (some n) = if ltb_ℤ (pos 0) n then n else pos 60

abbrev interval_setting : Bytes → ℤ
interval_setting v = if is_empty v then pos 60 else seconds_or_60 (atoi v)

abbrev shown : Assoc Bytes → Bytes → Bytes → SettingsResponse
shown m infisical_token dashboard_token = record {
  infisical_token_set = not (is_empty infisical_token);
  infisical_project_id = setting (bytes "infisical_project_id") m;
  infisical_env = setting (bytes "infisical_env") m;
  infisical_url = setting (bytes "infisical_url") m;
  git_user_name = setting (bytes "git_user_name") m;
  git_user_email = setting (bytes "git_user_email") m;
  dashboard_token_set = not (is_empty dashboard_token);
  default_sync_interval = interval_setting (setting (bytes "default_sync_interval") m);
}

-- handleGetGeneralSettings
unfoldable pub handle_get_general_settings : Database → Response SettingsResponse × Database
handle_get_general_settings db =
    let (r, db₁) = Settings.get_all_settings db in
    elim r [
      | err e ↦ (json_error (message (bytes "failed to get settings")) 500, db₁)
      | ok m ↦
          let (t, db₂) = Settings.get_setting (bytes "infisical_token") db₁ in
          let (d, db₃) = Settings.get_setting (bytes "dashboard_token") db₂ in
          (json_ok (value (shown m (value_or_empty t) (value_or_empty d))), db₃)
    ]

-- A setting that the request gives, or gives and is not "".
abbrev pub given : Bytes → Option Bytes → List (Bytes × Bytes)
given key none = []
given key (some v) = (key, v) ∷ []

abbrev pub non_empty : Option Bytes → Option Bytes
non_empty none = none
non_empty (some v) = if is_empty v then none else some v

-- The stored form of an interval, where it is positive.
abbrev pub positive : Option ℤ → Option Bytes
positive none = none
positive (some n) = if ltb_ℤ (pos 0) n then some (decimal (pos_part n)) else none

abbrev encrypted : (Bytes → Option Bytes) → Option Bytes → Step (Unit {0}) (Option Bytes)
encrypted encrypt none = go none
encrypted encrypt (some v) = elim (encrypt v) [
  | none ↦ halt (json_error (message (bytes "failed to encrypt token")) 500)
  | some enc ↦ go (some enc)
]

-- The list of updates, in the order in which they are written.
pub updates : (encrypted_token : Option Bytes) → SettingsRequest → List (Bytes × Bytes)
updates enc req =
    given (bytes "infisical_token") enc
    ++ (given (bytes "infisical_project_id") req.infisical_project_id
        ++ (given (bytes "infisical_env") req.infisical_env
            ++ (given (bytes "infisical_url") req.infisical_url
                ++ (given (bytes "git_user_name") req.git_user_name
                    ++ (given (bytes "git_user_email") req.git_user_email
                        ++ (given (bytes "dashboard_token") (non_empty req.dashboard_token)
                            ++ given (bytes "default_sync_interval")
                                (positive req.default_sync_interval)))))))

-- The loop that writes them: the key at which it stops, and the database.
pub write_all : Bytes → List (Bytes × Bytes) → Database → Option Bytes × Database
write_all now [] db = (none, db)
write_all now ((k, v) ∷ us) db =
    let (e, db') = Settings.set_setting now k v db in
    let rest = write_all now us db' in elim e [ some _ ↦ (some k, db') | none ↦ rest ]

-- SetToken of the pending token, if there is one.
abbrev pub apply_token : Option Bytes → Bytes → Bytes
apply_token none token = token
apply_token (some t) token = t

-- handleUpdateGeneralSettings from the loop on.
pub store_updates : Bytes → Option Bytes → SettingsRequest → Live → Response (Unit {0}) × Live
store_updates now enc req s =
    let (e, db') = write_all now (updates enc req) s.db in
    elim e [
      | some k ↦ (
        json_error (message (bytes "failed to update setting: " ++ k)) 500,
        record s { db = db' },
      )
      | none ↦ (
        json_ok done,
        record { db = db'; token = apply_token (non_empty req.dashboard_token) s.token },
      )
    ]

-- handleUpdateGeneralSettings; `encrypt` is crypto.Encrypt with the server's key.
unfoldable pub handle_update_general_settings :
    (encrypt : Bytes → Option Bytes) (now : Bytes)
    → Option SettingsRequest
    → Live
    → Response (Unit {0}) × Live
handle_update_general_settings encrypt now none s =
    (json_error (message (bytes "invalid request body")) 400, s)
handle_update_general_settings encrypt now (some req) s =
    elim (encrypted encrypt (non_empty req.infisical_token)) [
      | halt r ↦ (r, s)
      | go enc ↦ store_updates now enc req s
    ]
