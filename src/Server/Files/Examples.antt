-- ===== src/Server/Files/Examples.antt =====
-- Tests of the serving of compose files.
use stackd.Base.{◌≡◌, refl, arith, All, some, if◌then◌else◌, Bytes, bytes, text, has_suffix, insert}
use stackd.State.{StackState, no_stack}
use stackd.State.Store.{Store, new, update_stack, get_all, get_stack}
use stackd.State.Store.Laws.{HasNoSlash, new-IsConsistent, update_stack-IsConsistent}
use stackd.Paths.{join_path}
use stackd.Server.Files.{
  Entry, missing, symlink, other, content, stack_not_found, stack_dir_of, first_file,
  handle_compose_file,
}
use stackd.Server.Files.Laws.{FileOutcome, handle_compose_file-FileOutcome}

-- compose.yaml is a symlink, docker-compose.yml a file.
abbrev entry : Bytes → Entry
entry path =
    if has_suffix (bytes "/docker-compose.yml") path
    then other (some (bytes "services:"))
    else if has_suffix (bytes "/compose.yaml") path
    then symlink (bytes "/etc/passwd")
    else missing

abbrev web : StackState
web = record no_stack {
  name = bytes "web";
  repo_name = bytes "infra";
  stack_dir = bytes "/data/infra/web";
}

abbrev store : Store
store = update_stack web new

served : handle_compose_file entry (bytes "infra") (bytes "web") store ≡ content (bytes "services:")
unfolding handle_compose_file stack_dir_of first_file get_all update_stack new insert join_path text
served = refl

unknown : handle_compose_file entry (bytes "infra") (bytes "db") store ≡ stack_not_found
unfolding handle_compose_file stack_dir_of first_file get_all update_stack new insert text
unknown = refl

infra-HasNoSlash : HasNoSlash (bytes "infra")
infra-HasNoSlash = ground arith

store-HasNoSlash : All (λ st. HasNoSlash st.repo_name) (get_all store).stacks
unfolding get_all update_stack new insert
store-HasNoSlash = (infra-HasNoSlash, tt)

handle_compose_file-FileOutcome_example :
    FileOutcome entry
      (get_stack (bytes "infra") (bytes "web") store)
      (handle_compose_file entry (bytes "infra") (bytes "web") store)
handle_compose_file-FileOutcome_example =
    handle_compose_file-FileOutcome entry store (update_stack-IsConsistent new-IsConsistent web)
      (bytes "infra") (bytes "web") infra-HasNoSlash store-HasNoSlash
