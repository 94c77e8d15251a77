-- ===== src/Main/Token.antt =====
-- main.go: ensureDashboardToken. Timeouts and logging are left out.
mod Generated
pub mod Laws
mod Examples
use stackd.Base.{
  Bool, true, false, Option, none, some, [], ◌++◌, if◌then◌else◌, Bytes, bytes, is_empty, Assoc,
}
use stackd.Paths.{join_path}
use stackd.Db.Settings.{get_setting, set_setting}
use stackd.Server.Settings.{Live, value_or_empty}

-- What is read outside the program: the variable DASHBOARD_TOKEN, the random bytes and whether there
-- are any, base64, and os.WriteFile on the files.
pub record TokenEnv : Type 0 where
  pub env_token : Bytes
  pub random : Option Bytes
  pub encode : Bytes → Bytes
  pub write_file : (path content : Bytes) → Assoc Bytes → Bool × Assoc Bytes

-- The server with its database, and the files.
pub record TokenState : Type 0 where
  pub live : Live
  pub files : Assoc Bytes

pub data TokenError : Type 0 where
  not_generated not_written not_persisted : TokenError

-- srv.SetToken
abbrev pub set_token : Bytes → TokenState → TokenState
set_token token s = record s { live = record s.live { token = token } }

abbrev pub token_path : Bytes → Bytes
token_path clone_dir = join_path clone_dir (bytes "dashboard_token")

module _ (env : TokenEnv) (now clone_dir : Bytes) where
  -- Behind the file of a new token.
  pub persist : Bytes → TokenState → Option TokenError × TokenState
  persist token s =
      let (e, db) = set_setting now (bytes "dashboard_token") token s.live.db in
      let tried = record s { live = record s.live { db = db } } in
      elim e [ some _ ↦ (some not_persisted, tried) | none ↦ (none, set_token token tried) ]

  -- Behind the reading of the stored token, where there is none.
  pub generate : TokenState → Option TokenError × TokenState
  unfolding persist
  generate s = elim env.random [
    | none ↦ (some not_generated, s)
    | some buf ↦
        let token = env.encode buf in
        let (written, files) =
          env.write_file (token_path clone_dir) (token ++ bytes "\n") s.files in
        let tried = record s { files = files } in
        if written then persist token tried else (some not_written, tried)
  ]

  -- Behind the variable, where that is not set.
  pub load_or_generate : TokenState → Option TokenError × TokenState
  unfolding generate
  load_or_generate s =
      let (r, db) = get_setting (bytes "dashboard_token") s.live.db in
      let asked = record s { live = record s.live { db = db } } in
      let token = value_or_empty r in
      if is_empty token then generate asked else (none, set_token token asked)

  -- ensureDashboardToken
  unfoldable pub ensure_dashboard_token : TokenState → Option TokenError × TokenState
  unfolding load_or_generate
  ensure_dashboard_token s =
      if is_empty env.env_token then load_or_generate s else (none, set_token env.env_token s)
