-- ===== src/Server/Files.antt =====
-- internal/server/server.go: handleComposeFile and readNoFollow.
mod Dirs
mod Laws
mod Examples
use stackd.Base.{
  ◌&&◌, Bool, true, false, Option, none, some, List, [], ◌∷◌, if◌then◌else◌, Bytes, is_empty,
  str_eq,
}
use stackd.Paths.{join_path}
use stackd.State.{StackState}
use stackd.State.Store.{Store, get_all}
use stackd.Stacks.Compose.{candidates}

-- The answers: the two plain texts with 404, or the file's content with 200.
pub data FileAnswer : Type 0 where
  stack_not_found compose_file_not_found : FileAnswer
  content : Bytes → FileAnswer

-- What the last component of a path is on the host, once the operating system has resolved the
-- directories before it, symlinks among them: missing, a symlink with the path it points to, or
-- anything else (a file, a directory, a device), with what can be read of it, if anything.
pub data Entry : Type 0 where
  missing : Entry
  symlink : (target : Bytes) → Entry
  other : (readable : Option Bytes) → Entry

-- What O_NOFOLLOW opens and ReadAll reads: a symlink at the last component is refused.
abbrev pub opened : Entry → Option Bytes
opened missing = none
opened (symlink target) = none
opened (other readable) = readable

-- readNoFollow
abbrev pub read_no_follow : (entry : Bytes → Entry) (path : Bytes) → Option Bytes
read_no_follow entry path = opened (entry path)

-- The loop over the stacks: the directory of the first that has the names.
pub stack_dir_of : (repo_name stack_name : Bytes) → List StackState → Bytes
stack_dir_of repo_name stack_name [] = []
stack_dir_of repo_name stack_name (st ∷ sts) =
    if str_eq st.repo_name repo_name && str_eq st.name stack_name
    then st.stack_dir
    else stack_dir_of repo_name stack_name sts

module _ (entry : Bytes → Entry) where
  -- The loop over the candidates.
  pub first_file : Bytes → List Bytes → FileAnswer
  first_file dir [] = compose_file_not_found
  first_file dir (name ∷ names) = elim (read_no_follow entry (join_path dir name)) [
    | some s ↦ content s
    | none ↦ first_file dir names
  ]

  -- handleComposeFile
  unfoldable pub handle_compose_file : (repo_name stack_name : Bytes) → Store → FileAnswer
  unfolding stack_dir_of first_file
  handle_compose_file repo_name stack_name s =
      let dir = stack_dir_of repo_name stack_name (get_all s).stacks in
      if is_empty dir then stack_not_found else first_file dir candidates
