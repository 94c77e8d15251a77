-- ===== src/Server/System.antt =====
-- internal/server/server.go: SetSystemInfo and handleSystemInfo, with what main.go passes to them. The
-- text of a duration and Go's version are parameters.
mod Laws
use stackd.Base.{List, [], ◌∷◌, Bytes, bytes, trim_prefix}

-- The fields of the server.
pub record SystemInfo : Type 0 where
  pub version : Bytes
  pub clone_dir : Bytes
  pub db_path : Bytes

-- SetSystemInfo
unfoldable pub set_system_info : (version clone_dir db_path : Bytes) → SystemInfo → SystemInfo
set_system_info version clone_dir db_path s = record {
  version = version;
  clone_dir = clone_dir;
  db_path = db_path;
}

-- The path that main shows of a database URL.
abbrev pub shown_path : (db_url : Bytes) → Bytes
shown_path db_url = trim_prefix (bytes "sqlite://") db_url

-- handleSystemInfo: the fields of its JSON object; `uptime` is the text of the time since the start.
unfoldable pub handle_system_info : (uptime go_version : Bytes) → SystemInfo → List (Bytes × Bytes)
handle_system_info uptime go_version s =
    (bytes "version", s.version)
    ∷ (bytes "uptime", uptime)
    ∷ (bytes "cloneDir", s.clone_dir)
    ∷ (bytes "dbPath", s.db_path)
    ∷ (bytes "goVersion", go_version)
    ∷ []
