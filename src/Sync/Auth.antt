-- ===== src/Sync/Auth.antt =====
-- main.go: safeRepoPath and setupGitAuth. Timeouts and logging are left out.
pub mod Laws
mod Below
mod Examples
use stackd.Base.{
  ◌||◌, not, Bool, true, false, Option, none, some, List, [], ◌∷◌, ◌++◌, if◌then◌else◌, Bytes,
  bytes, is_empty, str_eq, has_prefix, has_suffix, ℤ, pos, Assoc, insert, delete,
}
use stackd.Process.{Cmd, Host}
use stackd.Paths.{join_path, rel}
use stackd.Git.Validate.{Error, validate_repo_name}
use stackd.Git.Redact.{redact}
use stackd.Git.Sync.{AuthOpts, sync_repo, Sha, sha, no_sha, head_sha}
use stackd.State.{ActivityEvent, SyncStatus, ContainerDetail, RepoState, no_repo}
use stackd.State.Store.{Store, get_repo, update_repo}
use stackd.Schedule.{
  Schedule, effective_interval, record_sync_success, record_sync_failure, mark_scheduled,
}
use stackd.Metrics.{record_sync}
use stackd.Db.{DbError, Result, ok, err, Database}
use stackd.Db.Repos.{RepoDb}
use stackd.Db.Keys.{SshKeyDb, get_ssh_key}
use stackd.Stacks.Compose.{InfisicalConfig}
use stackd.Stacks.Apply.{World, publish_event, run_stacks_sync}

-- The errors of gitSyncToDisk; a git error is its text.
pub data SyncError : Type 0 where
  bad_name : Error → SyncError
  escapes : SyncError
  no_key : DbError → SyncError
  key_not_decrypted : SyncError
  no_key_file : SyncError
  key_not_written : SyncError
  pat_not_decrypted : SyncError
  git_failed : Bytes → SyncError

-- safeRepoPath
pub data SafePath : Type 0 where
  refused : SyncError → SafePath
  safe : Bytes → SafePath

abbrev leaves : Option Bytes → Bool
leaves none = true
leaves (some r) = str_eq r (bytes "..") || has_prefix (bytes "../") r

unfoldable pub safe_repo_path : (clone_dir repo_name : Bytes) → SafePath
safe_repo_path clone_dir repo_name = elim (validate_repo_name repo_name) [
  | some e ↦ refused (bad_name e)
  | none ↦
      let dest = join_path clone_dir repo_name in
      if leaves (rel clone_dir dest) then refused escapes else safe dest
]

-- What a sync reads outside the program: crypto.Decrypt with the key, the path that os.CreateTemp
-- chooses beside the files that are there, whether the file at a path can be written and whether
-- os.Remove removes it, base64, time.Parse, and the %v of an error.
pub record SyncEnv : Type 0 where
  pub decrypt : Bytes → Option Bytes
  pub temp_file : Assoc Bytes → Option Bytes
  pub can_write : Bytes → Bool
  pub can_remove : Bytes → Bool
  pub encode : Bytes → Bytes
  pub parse_time : Bytes → ℤ
  pub describe : SyncError → Bytes

-- The program's state: that of the stacks, the schedule, the database and the files of keys.
pub record SyncState : Type 0 where
  pub world : World
  pub schedule : Schedule
  pub db : Database
  pub key_files : Assoc Bytes

-- What setupGitAuth gives: an error, or the options and the file that the cleanup removes.
pub data Auth : Type 0 where
  failed : SyncError → Auth
  ready : AuthOpts → Option Bytes → Auth

abbrev pub no_auth : Bytes → AuthOpts
no_auth kind = record { kind = kind; ssh_key_path = []; pat = [] }

-- The key with a line break at its end.
abbrev with_newline : Bytes → Bytes
with_newline key = if has_suffix (bytes "\n") key then key else key ++ bytes "\n"

module _ (env : SyncEnv) where
  -- os.Remove, whose error is ignored.
  abbrev pub remove : Bytes → Assoc Bytes → Assoc Bytes
  remove path files = if env.can_remove path then delete path files else files

  -- The cleanup function of setupGitAuth.
  abbrev pub clean_up : Option Bytes → Assoc Bytes → Assoc Bytes
  clean_up none files = files
  clean_up (some path) files = remove path files

  -- setupGitAuth behind the decryption of a key: a file that cannot be written is removed at once.
  pub write_key : Bytes → Bytes → Assoc Bytes → Auth × Assoc Bytes
  write_key kind key files = elim (env.temp_file files) [
    | none ↦ (failed no_key_file, files)
    | some path ↦
        if env.can_write path
        then (
          ready (record { kind = kind; ssh_key_path = path; pat = [] }) (some path),
          insert path (with_newline key) files,
        )
        else (failed key_not_written, remove path (insert path [] files))
  ]

  abbrev decrypt_key : Bytes → Result SshKeyDb → Assoc Bytes → Auth × Assoc Bytes
  decrypt_key kind (err e) files = (failed (no_key e), files)
  decrypt_key kind (ok key) files = elim (env.decrypt key.private_key_enc) [
    | none ↦ (failed key_not_decrypted, files)
    | some plain ↦ write_key kind plain files
  ]

  abbrev pat_auth : Bytes → Bytes → Auth
  pat_auth kind pat_enc = elim (env.decrypt pat_enc) [
    | none ↦ failed pat_not_decrypted
    | some pat ↦ ready (record { kind = kind; ssh_key_path = []; pat = pat }) none
  ]

  -- setupGitAuth
  unfoldable pub setup_git_auth : RepoDb → SyncState → Auth × SyncState
  unfolding write_key
  setup_git_auth repo s =
      if str_eq repo.auth_type (bytes "ssh")
      then (if is_empty repo.ssh_key_id
          then (ready (no_auth repo.auth_type) none, s)
          else let (r, db') = get_ssh_key env.parse_time repo.ssh_key_id s.db in
            let (a, files) = decrypt_key repo.auth_type r s.key_files in
            (a, record s { db = db'; key_files = files }))
      else if str_eq repo.auth_type (bytes "pat")
      then (if is_empty repo.pat_enc
          then (ready (no_auth repo.auth_type) none, s)
          else (pat_auth repo.auth_type repo.pat_enc, s))
      else (ready (no_auth repo.auth_type) none, s)
