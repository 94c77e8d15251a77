-- ===== src/Server/System/Laws.antt =====
-- internal/server/server.go: what the system info shows of the database.
use stackd.Base.{refl, ◌++◌, Bytes, bytes, text, In, inl, inr}
use stackd.Server.System.{SystemInfo, set_system_info, shown_path, handle_system_info}

-- The URL of a Postgres database is shown as it is, with its password.
pub handle_system_info-postgres :
    (uptime go_version version clone_dir rest : Bytes) (s : SystemInfo)
    → In
        (bytes "dbPath", bytes "postgres" ++ rest)
        (handle_system_info uptime go_version
          (set_system_info version clone_dir (shown_path (bytes "postgres" ++ rest)) s))
unfolding handle_system_info set_system_info text
handle_system_info-postgres uptime go_version version clone_dir rest s = inr (inr (inr (inl refl)))
