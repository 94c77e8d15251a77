-- ===== src/Git/Sync/Laws.antt =====
-- internal/git/git.go: the commands that a sync runs, and what its errors show.
use stackd.Base.{
  ◌≡◌, ◌∙◌, ap, inl, inr, refl, Bool, Bool-cases, Option-cases, true, Option, none, some, List, ◌∷◌,
  ◌++◌, if◌then◌else◌, arith, Bytes, bytes, is_empty, All, In, In-append_right,
}
use stackd.Process.{Cmd, Host}
use stackd.Paths.{join_path}
use stackd.Git.Redact.{redact}
use stackd.Git.Redact.Laws.{IsRedacted, redact-IsRedacted}
use stackd.Git.Sync.{
  AuthOpts, git_allow_protocol, apply_git_env, failure_text, checked, clone_cmd, clone_repo,
  fetch_cmd, reset_cmd, target_ref, fetch_reset, sync_repo,
}

abbrev pub remote_or_origin : Bytes → Bytes
remote_or_origin remote = if is_empty remote then bytes "origin" else remote

-- A git command in the environment that limits its transports, in a process group of its own.
pub record IsGuarded (cmd : Cmd) : Type 0 where
  pub is_git : cmd.name ≡ bytes "git"
  pub own_group : cmd.setpgid ≡ true
  pub env : List Bytes
  pub has_env : cmd.env ≡ some env
  pub allows : In git_allow_protocol env

module _ (encode : Bytes → Bytes) (h : Host) where
  -- The text of the last command's failure: what was tried, the command's error, and all of its
  -- output, in which the credentials alone are masked.
  pub record IsSafeText (what : Bytes) (trace : List Cmd) (text : Bytes) : Type 0 where
    pub cmd : Cmd
    pub earlier : List Cmd
    pub last : trace ≡ cmd ∷ earlier
    pub error : Bytes
    pub failed : (h.run earlier cmd).failure ≡ some error
    pub form :
        text
        ≡ what
          ++ (bytes ": " ++ (error ++ (bytes "\noutput: " ++ redact (h.run earlier cmd).output)))
    pub safe : IsRedacted (redact (h.run earlier cmd).output)

  -- What the failed command of a sync was.
  pub data FailedSync (remote branch : Bytes) (trace : List Cmd) (text : Bytes) : Type 0 where
    at_clone : IsSafeText (bytes "git clone") trace text → FailedSync remote branch trace text
    at_fetch : IsSafeText (bytes "git fetch") trace text → FailedSync remote branch trace text
    at_reset :
        IsSafeText (bytes "git reset --hard " ++ target_ref encode h remote branch) trace text
        → FailedSync remote branch trace text

  guarded :
      (opts : AuthOpts) (cmd : Cmd)
      → cmd.name ≡ bytes "git"
      → cmd.setpgid ≡ true
      → IsGuarded (apply_git_env encode h opts cmd)
  unfolding apply_git_env
  guarded opts cmd e g = record {
    is_git = e;
    own_group = g;
    env = _;
    has_env = refl;
    allows = In-append_right git_allow_protocol h.environ _ (inl refl);
  }

  checked-IsSafeText :
      (what : Bytes) (cmd : Cmd) (earlier : List Cmd) {text : Bytes}
      → checked encode h what (h.run earlier cmd) ≡ some text
      → IsSafeText what (cmd ∷ earlier) text
  unfolding failure_text
  checked-IsSafeText what cmd earlier {text} e = elim (Option-cases (h.run earlier cmd).failure) [
    | inl n ↦ ground arith
    | inr (error, f) ↦ record {
      cmd = cmd;
      earlier = earlier;
      last = refl;
      error = error;
      failed = f;
      form = ground arith;
      safe = redact-IsRedacted (h.run earlier cmd).output;
    }
  ]

  -- What a run of commands may leave: guarded commands on top of those before it, and an error that is
  -- safe to show.
  record IsSafeRun (remote branch : Bytes) (before : List Cmd) (e : Option Bytes) (trace : List Cmd)
      : Type 0 where
    commands : All IsGuarded before → All IsGuarded trace
    error : {text : Bytes} → e ≡ some text → FailedSync remote branch trace text

  module _ (opts : AuthOpts) where
    clone_repo-IsSafeRun :
        (url dir remote branch : Bytes) (trace : List Cmd)
        → IsSafeRun remote branch trace
            (clone_repo encode h url dir remote opts trace).0
            (clone_repo encode h url dir remote opts trace).1
    unfolding clone_repo
    clone_repo-IsSafeRun url dir remote branch trace = record {
      commands = λ g. (guarded opts _ refl refl, g);
      error = λ e.
          at_clone (
            checked-IsSafeText (bytes "git clone") (clone_cmd encode h url dir remote opts) trace
              e);
    }

    fetch_reset-IsSafeRun :
        (dir remote branch : Bytes) (trace : List Cmd)
        → IsSafeRun remote branch trace
            (fetch_reset encode h dir remote branch opts trace).0
            (fetch_reset encode h dir remote branch opts trace).1
    unfolding fetch_reset
    fetch_reset-IsSafeRun dir remote branch trace =
        let fetch = fetch_cmd encode h dir remote opts in
        elim (Option-cases (checked encode h (bytes "git fetch") (h.run trace fetch))) [
          | inr (text, f) ↦ rw f (record {
            commands = λ g. (guarded opts _ refl refl, g);
            error = λ e. at_fetch (checked-IsSafeText (bytes "git fetch") fetch trace (f ∙ e));
          })
          | inl f ↦ rw f (record {
            commands = λ g. (guarded opts _ refl refl, (guarded opts _ refl refl, g));
            error = λ e. at_reset (
                checked-IsSafeText (bytes "git reset --hard " ++ target_ref encode h remote branch)
                  (reset_cmd encode h dir (target_ref encode h remote branch) opts) (fetch ∷ trace)
                  e);
          })
        ]

    sync_repo-IsSafeRun :
        (dir url remote branch : Bytes) (trace : List Cmd)
        → IsSafeRun
            (remote_or_origin remote)
            branch
            trace
            (sync_repo encode h dir url remote branch opts trace).0
            (sync_repo encode h dir url remote branch opts trace).1
    unfolding sync_repo
    sync_repo-IsSafeRun dir url remote branch trace =
        let r = remote_or_origin remote in
        let cloned = clone_repo-IsSafeRun url dir r branch trace in
        elim (Bool-cases (h.exists trace (join_path dir (bytes ".git")))) [
          | inl e ↦ rw e (fetch_reset-IsSafeRun dir r branch trace)
          | inr e ↦ rw e (elim (Option-cases (clone_repo encode h url dir r opts trace).0) [
            | inr (text, f) ↦
                rw f (record { commands = cloned.commands; error = λ q. cloned.error (f ∙ q) })
            | inl f ↦
                let fetched = fetch_reset-IsSafeRun dir r branch _ in
                rw f (record {
                  commands = λ g. fetched.commands (cloned.commands g);
                  error = fetched.error;
                })
          ])
        ]

    -- The commands that a sync adds, the latest at the head, where all of them succeed.
    abbrev pub full_sync : (cloned : Bool) (dir url remote branch : Bytes) → List Cmd → List Cmd
    full_sync cloned dir url remote branch trace =
        reset_cmd encode h dir (target_ref encode h remote branch) opts
        ∷ fetch_cmd encode h dir remote opts
        ∷ (if cloned then trace else clone_cmd encode h url dir remote opts ∷ trace)

    fetch_reset-commands :
        (dir remote branch : Bytes) (trace : List Cmd)
        → (fetch_reset encode h dir remote branch opts trace).0 ≡ none
        → (fetch_reset encode h dir remote branch opts trace).1
          ≡ reset_cmd encode h dir (target_ref encode h remote branch) opts
            ∷ fetch_cmd encode h dir remote opts
            ∷ trace
    unfolding fetch_reset
    fetch_reset-commands dir remote branch trace e =
        elim (Option-cases (
          checked encode h (bytes "git fetch")
            (h.run trace (fetch_cmd encode h dir remote opts)))) [
              | inr (text, f) ↦ ground (arith, f)
              | inl f ↦ ground (arith, f)
            ]

    clone_repo-trace :
        (url dir remote : Bytes) (trace : List Cmd)
        → (clone_repo encode h url dir remote opts trace).1
          ≡ clone_cmd encode h url dir remote opts ∷ trace
    unfolding clone_repo
    clone_repo-trace url dir remote trace = refl

    -- A sync that succeeds has run a clone exactly if there was no .git in the directory, then a
    -- fetch, and last the hard reset to the remote branch, or to FETCH_HEAD where the branch is
    -- "" or "HEAD"; the remote is "origin" where none is given.
    pub sync_repo-commands :
        (dir url remote branch : Bytes) (trace : List Cmd)
        → (sync_repo encode h dir url remote branch opts trace).0 ≡ none
        → (sync_repo encode h dir url remote branch opts trace).1
          ≡ full_sync
              (h.exists trace (join_path dir (bytes ".git")))
              dir
              url
              (remote_or_origin remote)
              branch
              trace
    unfolding sync_repo
    sync_repo-commands dir url remote branch trace ok =
        let r = remote_or_origin remote in
        elim (Bool-cases (h.exists trace (join_path dir (bytes ".git")))) [
          | inl e ↦ rw e (fetch_reset-commands dir r branch trace (rw e at ok))
          | inr e ↦ rw e (elim (Option-cases (clone_repo encode h url dir r opts trace).0) [
            | inr (text, f) ↦ ground (arith, f, e)
            | inl f ↦ rw f (
                fetch_reset-commands dir r branch _ (rw f at (rw e at ok))
                ∙ ap
                    (λ t.
                      reset_cmd encode h dir (target_ref encode h r branch) opts
                      ∷ fetch_cmd encode h dir r opts
                      ∷ t)
                    (clone_repo-trace url dir r trace))
          ])
        ]

    -- Every command of a sync is git's, in a process group of its own and with GIT_ALLOW_PROTOCOL
    -- in its environment, if the earlier ones are.
    pub sync_repo-IsGuarded :
        (dir url remote branch : Bytes) (trace : List Cmd)
        → All IsGuarded trace
        → All IsGuarded (sync_repo encode h dir url remote branch opts trace).1
    sync_repo-IsGuarded dir url remote branch trace g =
        (sync_repo-IsSafeRun dir url remote branch trace).commands g

    -- The text of a failed sync tells of the command that was run last, which failed: it is "git clone",
    -- "git fetch" or "git reset --hard" with the ref, the command's own error, and "output: " with the
    -- command's own output as Redact gives it, which holds no credential.
    pub sync_repo-IsSafeText :
        (dir url remote branch : Bytes) (trace : List Cmd) {text : Bytes}
        → (sync_repo encode h dir url remote branch opts trace).0 ≡ some text
        → FailedSync
            (remote_or_origin remote)
            branch
            (sync_repo encode h dir url remote branch opts trace).1
            text
    sync_repo-IsSafeText dir url remote branch trace =
        (sync_repo-IsSafeRun dir url remote branch trace).error
