-- ===== src/Git/Sync/Examples.antt =====
-- Tests of a sync on a host whose commands succeed until a `git fetch` of a bad remote.
use stackd.Base.{
  ◌≡◌, refl, none, some, false, List, [], ◌∷◌, Bytes, bytes, text, All, pos, str_eq, any,
  if◌then◌else◌,
}
use stackd.Process.{Cmd, Ran, Host}
use stackd.Git.Sync.{AuthOpts, sync_repo, apply_git_env, failure_text, clone_repo, fetch_reset}
use stackd.Git.Sync.Laws.{
  IsGuarded, FailedSync, full_sync, sync_repo-commands, sync_repo-IsGuarded, sync_repo-IsSafeText,
}
use stackd.Paths.{join_path}

abbrev done : Ran
done = record { output = []; stdout = []; exit_stderr = []; failure = none }

abbrev unreachable : Ran
unreachable = record {
  output = bytes "fatal: unable to access https://u:tok@h/x";
  stdout = [];
  exit_stderr = [];
  failure = some (bytes "exit status 128");
}

abbrev answer : List Cmd → Cmd → Ran
answer trace cmd = if any (str_eq (bytes "bad")) cmd.args then unreachable else done

abbrev host : Host
host = record {
  run = answer;
  exists = λ _ path. str_eq path (bytes "/data/old/.git");
  read_file = λ _ _. none;
  read_dir = λ _ _. none;
  now = λ _. pos 0;
  environ = bytes "PATH=/bin" ∷ [];
  known_hosts_dir = bytes "/data/ssh";
}

abbrev opts : AuthOpts
opts = record { kind = bytes "pat"; ssh_key_path = []; pat = bytes "tok" }

abbrev encode : Bytes → Bytes
encode s = s

sync_repo-commands_example :
    (sync_repo encode host (bytes "/data/new") (bytes "https://h/x") [] (bytes "main") opts []).1
    ≡ full_sync encode host opts false
        (bytes "/data/new")
        (bytes "https://h/x")
        (bytes "origin")
        (bytes "main")
        []
unfolding sync_repo clone_repo fetch_reset text join_path apply_git_env
sync_repo-commands_example =
    sync_repo-commands encode host opts (bytes "/data/new") (bytes "https://h/x") [] (bytes "main")
      [] refl

sync_repo-IsGuarded_example :
    All IsGuarded
      (sync_repo encode host
        (bytes "/data/old")
        (bytes "https://h/x")
        (bytes "origin")
        (bytes "main")
        opts
        []).1
sync_repo-IsGuarded_example =
    sync_repo-IsGuarded encode host opts (bytes "/data/old") (bytes "https://h/x") (bytes "origin")
      (bytes "main") [] tt

sync_repo-IsSafeText_example :
    FailedSync encode host
      (bytes "bad")
      (bytes "main")
      (sync_repo encode host
        (bytes "/data/old")
        (bytes "https://h/x")
        (bytes "bad")
        (bytes "main")
        opts
        []).1
      (failure_text encode host (bytes "git fetch") (bytes "exit status 128") unreachable.output)
unfolding sync_repo clone_repo fetch_reset text join_path apply_git_env
sync_repo-IsSafeText_example =
    sync_repo-IsSafeText encode host opts (bytes "/data/old") (bytes "https://h/x") (bytes "bad")
      (bytes "main") [] refl
