-- ===== src/Main/Config.antt =====
-- main.go: loadDefaultInterval and loadInfisicalFromDB. Timeouts and logging are left out.
mod Laws
mod Examples
use stackd.Base.{
  Bool, true, false, Option, none, some, if◌then◌else◌, Bytes, bytes, is_empty, ℤ, pos, ltb_ℤ,
  mul_i64, atoi, ◌*◌, [],
}
use stackd.Schedule.{second}
use stackd.Db.{Result, ok, err, Database}
use stackd.Db.Settings.{get_setting, get_all_settings}
use stackd.Server.Settings.{setting, value_or_empty}
use stackd.Stacks.Compose.{InfisicalConfig}

abbrev pub one_minute : ℤ
one_minute = pos (60 * second)

-- A number of seconds above 0 as a time.Duration, and one minute for any other.
abbrev pub seconds_or_minute : Option ℤ → ℤ
seconds_or_minute none = one_minute
seconds_or_minute (some n) = if ltb_ℤ (pos 0) n then mul_i64 n (pos second) else one_minute

-- The interval of a setting's value, "" where it could not be read.
abbrev pub interval_of : Bytes → ℤ
interval_of v = if is_empty v then one_minute else seconds_or_minute (atoi v)

-- loadDefaultInterval
unfoldable pub load_default_interval : Database → ℤ × Database
load_default_interval db =
    let (r, db') = get_setting (bytes "default_sync_interval") db in
    (interval_of (value_or_empty r), db')

abbrev no_infisical : InfisicalConfig
no_infisical = record { token = []; env = bytes "prod"; url = []; project_id = [] }

-- The token, "" where it is not set or not decrypted.
abbrev pub token_of : (Bytes → Option Bytes) → Bytes → Bytes
token_of decrypt enc = if is_empty enc then [] else elim (decrypt enc) [ none ↦ [] | some t ↦ t ]

abbrev pub env_of : Bytes → Bytes
env_of v = if is_empty v then bytes "prod" else v

-- loadInfisicalFromDB; `decrypt` is crypto.Decrypt with the key.
unfoldable pub load_infisical : (Bytes → Option Bytes) → Database → InfisicalConfig × Database
load_infisical decrypt db =
    let (r, db₁) = get_all_settings db in
    elim r [
      | err e ↦ (no_infisical, db₁)
      | ok m ↦
          let (t, db₂) = get_setting (bytes "infisical_token") db₁ in
          (
            record {
              token = token_of decrypt (value_or_empty t);
              env = env_of (setting (bytes "infisical_env") m);
              url = setting (bytes "infisical_url") m;
              project_id = setting (bytes "infisical_project_id") m;
            },
            db₂,
          )
    ]
