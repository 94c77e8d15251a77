-- ===== src/Git/Sync.antt =====
-- internal/git/git.go: SyncRepo and the git commands that it runs. The state is the list of the
-- commands run so far, the latest at the head; an error is its text.
pub mod Laws
mod Examples
use stackd.Base.{
  ◌&&◌, not, Bool, true, false, Option, none, some, List, [], ◌∷◌, ◌++◌, if◌then◌else◌, Bytes,
  bytes, is_empty, str_eq, trim_space,
}
use stackd.Process.{Cmd, Ran, Host, command_context}
use stackd.Paths.{join_path}
use stackd.Git.Redact.{redact}

-- AuthOpts
pub record AuthOpts : Type 0 where
  pub kind : Bytes
  pub ssh_key_path : Bytes
  pub pat : Bytes

abbrev pub git_allow_protocol : Bytes
git_allow_protocol = bytes "GIT_ALLOW_PROTOCOL=ssh:https:git:http"

-- knownHostsFile: its path. The directory is made if it can be, which is not modelled.
pub known_hosts_file : Host → Bytes
known_hosts_file h =
    join_path (if is_empty h.known_hosts_dir then bytes "/tmp/stackd-ssh" else h.known_hosts_dir)
      (bytes "known_hosts")

-- sshCommandEnv
pub ssh_command_env : Host → Bytes → Bytes
ssh_command_env h key_path =
    bytes "GIT_SSH_COMMAND=ssh -i "
    ++ (key_path
        ++ (bytes " -o StrictHostKeyChecking=accept-new"
            ++ (bytes " -o UserKnownHostsFile="
                ++ (known_hosts_file h
                    ++ bytes
                        " -o BatchMode=yes -o ConnectTimeout=10 -o ServerAliveInterval=10 -o ServerAliveCountMax=3"))))

abbrev ssh_env : Host → AuthOpts → List Bytes
ssh_env h opts =
    if str_eq opts.kind (bytes "ssh") && not (is_empty opts.ssh_key_path)
    then ssh_command_env h opts.ssh_key_path ∷ []
    else []

-- `encode` is base64.StdEncoding.EncodeToString.
abbrev pat_env : (Bytes → Bytes) → AuthOpts → List Bytes
pat_env encode opts =
    if str_eq opts.kind (bytes "pat") && not (is_empty opts.pat)
    then bytes "GIT_CONFIG_COUNT=1"
      ∷ bytes "GIT_CONFIG_KEY_0=http.extraHeader"
      ∷ (bytes "GIT_CONFIG_VALUE_0=Authorization: Basic " ++ encode (opts.pat ++ bytes ":"))
      ∷ []
    else []

module _ (encode : Bytes → Bytes) (h : Host) where
  -- applyGitEnv
  pub apply_git_env : AuthOpts → Cmd → Cmd
  apply_git_env opts cmd = record cmd {
    env = some (h.environ ++ (git_allow_protocol ∷ (ssh_env h opts ++ pat_env encode opts)));
  }

  -- CombinedOutput: the command joins those that were run.
  abbrev pub run_cmd : Cmd → List Cmd → Ran × List Cmd
  run_cmd cmd trace = (h.run trace cmd, cmd ∷ trace)

  -- fmt.Errorf("<what>: %w\noutput: %s", err, Redact(out))
  pub failure_text : Bytes → Bytes → Bytes → Bytes
  failure_text what error output =
      what ++ (bytes ": " ++ (error ++ (bytes "\noutput: " ++ redact output)))

  abbrev checked : Bytes → Ran → Option Bytes
  checked what r = elim r.failure [
    | none ↦ none
    | some error ↦ some (failure_text what error r.output)
  ]

  abbrev pub clone_cmd : (repo_url dest_dir remote : Bytes) → AuthOpts → Cmd
  clone_cmd repo_url dest_dir remote opts = apply_git_env opts (
      command_context (bytes "git")
        (bytes "clone" ∷ bytes "--origin" ∷ remote ∷ bytes "--" ∷ repo_url ∷ dest_dir ∷ []))

  -- cloneRepo
  pub clone_repo :
      (repo_url dest_dir remote : Bytes) → AuthOpts → List Cmd → Option Bytes × List Cmd
  clone_repo repo_url dest_dir remote opts trace =
      let (r, trace') = run_cmd (clone_cmd repo_url dest_dir remote opts) trace in
      (checked (bytes "git clone") r, trace')

  abbrev pub fetch_cmd : (repo_dir remote : Bytes) → AuthOpts → Cmd
  fetch_cmd repo_dir remote opts = apply_git_env opts (
      command_context (bytes "git")
        (bytes "-C" ∷ repo_dir ∷ bytes "fetch" ∷ bytes "--prune" ∷ bytes "--" ∷ remote ∷ []))

  abbrev pub reset_cmd : (repo_dir ref : Bytes) → AuthOpts → Cmd
  reset_cmd repo_dir ref opts = apply_git_env opts (
      command_context (bytes "git") (
        bytes "-C"
        ∷ repo_dir
        ∷ bytes "reset"
        ∷ bytes "--hard"
        ∷ bytes "--end-of-options"
        ∷ ref
        ∷ []))

  abbrev pub target_ref : (remote branch : Bytes) → Bytes
  target_ref remote branch =
      if not (is_empty branch) && not (str_eq branch (bytes "HEAD"))
      then remote ++ (bytes "/" ++ branch)
      else bytes "FETCH_HEAD"

  -- fetchReset
  pub fetch_reset : (repo_dir remote branch : Bytes) → AuthOpts → List Cmd → Option Bytes × List Cmd
  fetch_reset repo_dir remote branch opts trace =
      let (r, trace') = run_cmd (fetch_cmd repo_dir remote opts) trace in
      elim (checked (bytes "git fetch") r) [
        | some error ↦ (some error, trace')
        | none ↦
            let ref = target_ref remote branch in
            let (q, trace'') = run_cmd (reset_cmd repo_dir ref opts) trace' in
            (checked (bytes "git reset --hard " ++ ref) q, trace'')
      ]

  -- SyncRepo
  unfoldable pub sync_repo :
      (dest_dir repo_url remote branch : Bytes) → AuthOpts → List Cmd → Option Bytes × List Cmd
  unfolding clone_repo fetch_reset
  sync_repo dest_dir repo_url remote branch opts trace =
      let remote' = if is_empty remote then bytes "origin" else remote in
      if h.exists trace (join_path dest_dir (bytes ".git"))
      then fetch_reset dest_dir remote' branch opts trace
      else let (e, trace') = clone_repo repo_url dest_dir remote' opts trace in
        elim e [
          | some error ↦ (some error, trace')
          | none ↦ fetch_reset dest_dir remote' branch opts trace'
        ]

-- HeadSHA: the answer or the error's text. The environment is the program's own.
pub data Sha : Type 0 where
  sha : Bytes → Sha
  no_sha : Bytes → Sha

abbrev head_cmd : Bytes → Cmd
head_cmd dir =
    command_context (bytes "git") (bytes "-C" ∷ dir ∷ bytes "rev-parse" ∷ bytes "HEAD" ∷ [])

abbrev head_failure : Bytes → Bytes → Bytes → Bytes
head_failure dir error exit_stderr =
    let text = bytes "git rev-parse HEAD " ++ (dir ++ (bytes ": " ++ error)) in
    if is_empty exit_stderr then text else text ++ (bytes ": " ++ trim_space exit_stderr)

unfoldable pub head_sha : Host → Bytes → List Cmd → Sha × List Cmd
head_sha h dir trace =
    let r = h.run trace (head_cmd dir) in
    (
      elim r.failure [
        | none ↦ sha (trim_space r.stdout)
        | some error ↦ no_sha (head_failure dir error r.exit_stderr)
      ],
      head_cmd dir ∷ trace,
    )
