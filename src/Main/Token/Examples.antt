-- ===== src/Main/Token/Examples.antt =====
-- Tests of the start without a token in the environment.
use stackd.Base.{
  ◌≡◌, refl, Bool, true, some, [], ◌∷◌, ◌++◌, arith, Bytes, bytes, text, Assoc, insert,
  lookup-insert_self,
}
use stackd.Db.{SettingRow}
use stackd.Db.Settings.{get_setting, set_setting, upsert}
use stackd.Db.Settings.Laws.{stored}
use stackd.Main.Token.{
  TokenEnv, TokenState, persist, generate, load_or_generate, ensure_dashboard_token,
}
use stackd.Main.Token.Generated.{Writes}
use stackd.Main.Token.Laws.{Ensured, ensure_dashboard_token-Ensured}

abbrev write_file : (path content : Bytes) → Assoc Bytes → Bool × Assoc Bytes
write_file path content files = (true, insert path content files)

abbrev env : TokenEnv
env = record {
  env_token = [];
  random = some (bytes "rnd");
  encode = λ buf. bytes "b64:" ++ buf;
  write_file = write_file;
}

env-Writes : Writes env
env-Writes = record {
  content = λ path content files e. lookup-insert_self path content files;
  text = λ buf e f. ground arith;
}

abbrev row : SettingRow
row = record {
  key = bytes "dashboard_token";
  value = some (bytes "old");
  sensitive = 1;
  updated_at = [];
}

-- The stored token is there, and the first statement fails.
abbrev start : TokenState
start = record {
  live = record {
    db = record { repos = []; ssh_keys = []; settings = row ∷ []; faults = true ∷ [] };
    token = [];
  };
  files = [];
}

-- A failure of the first read replaces the stored token.
replaced :
    stored
      (bytes "dashboard_token")
      (ensure_dashboard_token env [] (bytes "/data") start).1.live.db.settings
    ≡ some (bytes "b64:rnd")
unfolding ensure_dashboard_token load_or_generate generate persist get_setting set_setting upsert
    text
replaced = refl

ensure_dashboard_token-Ensured_example :
    Ensured []
      (bytes "/data")
      start
      (ensure_dashboard_token env [] (bytes "/data") start).0
      (ensure_dashboard_token env [] (bytes "/data") start).1
ensure_dashboard_token-Ensured_example =
    ensure_dashboard_token-Ensured env env-Writes [] (bytes "/data") start
