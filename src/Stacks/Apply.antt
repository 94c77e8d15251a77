-- ===== src/Stacks/Apply.antt =====
-- main.go: applyStack and runStacksSync. The store and the bus are there, as main passes them; the bus
-- is the list of the events published, the latest at the head. Logging is left out.
pub mod Laws
pub mod Others
mod Examples
use stackd.Base.{
  Bool, true, false, Option, none, some, List, [], ◌∷◌, ◌++◌, any, if◌then◌else◌, Bytes, bytes,
  is_empty, ℤ,
}
use stackd.Process.{Cmd, Ran, DirEntry, Host}
use stackd.Paths.{join_path}
use stackd.State.{ActivityEvent, ApplyStatus, ContainerDetail, StackState, no_stack}
use stackd.State.Store.{Store, update_stack}
use stackd.Metrics.{Metrics, record_apply}
use stackd.Schedule.{is_zero}
use stackd.Stacks.Compose.{InfisicalConfig, candidates, build_compose_cmd, infisical_mode}
use stackd.Stacks.Summary.{extract_error_summary, latest_started_at}

pub record World : Type 0 where
  pub trace : List Cmd
  pub store : Store
  pub metrics : Metrics
  pub events : List ActivityEvent

-- bus.Publish
abbrev pub publish_event : ActivityEvent → World → World
publish_event ev w = record w { events = ev ∷ w.events }

abbrev applying_event : (repo_name stack_name : Bytes) → ActivityEvent
applying_event repo_name stack_name = record {
  kind = bytes "applying";
  repo = repo_name;
  stack = stack_name;
  msg = bytes "Applying " ++ stack_name;
}

-- The stack's state before the command, and its names in the state behind it.
abbrev pub applying_state : (stack_path stack_name repo_name : Bytes) → StackState
applying_state stack_path stack_name repo_name = record no_stack {
  name = stack_name;
  repo_name = repo_name;
  stack_dir = stack_path;
  status = ApplyStatus.applying;
}

-- LastApply: when a container last started, where one did.
abbrev pub last_apply_of : ℤ → List ContainerDetail → ℤ
last_apply_of now ctrs =
    let latest = latest_started_at ctrs in if is_zero latest then now else latest

-- The fields that depend on the outcome. `ctrs` is what ListStackContainerDetails gives, `none`
-- where there is no Docker client or it fails; the fields before are those of `st`.
pub settle : Ran → Option (List ContainerDetail) → StackState → StackState
settle r ctrs st = elim r.failure [
  | some error ↦ record st {
    status = ApplyStatus.error;
    last_error = extract_error_summary r.output error;
  }
  | none ↦ elim ctrs [
    | none ↦ record st { status = ApplyStatus.ok }
    | some cs ↦ record st {
      status = ApplyStatus.ok;
      containers = cs;
      last_apply = last_apply_of st.last_apply cs;
    }
  ]
]

abbrev outcome : Option Bytes → Bytes
outcome none = bytes "success"
outcome (some _) = bytes "error"

abbrev finished_event : Option Bytes → (repo_name stack_name : Bytes) → ActivityEvent
finished_event none repo_name stack_name = record {
  kind = bytes "done";
  repo = repo_name;
  stack = stack_name;
  msg = stack_name ++ bytes " ready";
}
finished_event (some _) repo_name stack_name = record {
  kind = bytes "error";
  repo = repo_name;
  stack = stack_name;
  msg = stack_name ++ bytes " failed";
}

module _ (h : Host) (list_containers : List Cmd → Bytes → Option (List ContainerDetail))
    (cfg : InfisicalConfig) where
  abbrev pub compose_cmd : List Cmd → Bytes → Cmd
  compose_cmd trace stack_path = record (build_compose_cmd h trace stack_path cfg) {
    dir = stack_path;
  }

  -- The fields of the stack's state that do not depend on the outcome.
  abbrev pub finished_state : List Cmd → (stack_path stack_name repo_name : Bytes) → StackState
  finished_state trace stack_path stack_name repo_name =
      let cmd = compose_cmd trace stack_path in
      record no_stack {
        name = stack_name;
        repo_name = repo_name;
        stack_dir = stack_path;
        last_apply = h.now (cmd ∷ trace);
        last_output = (h.run trace cmd).output;
        infisical_mode = infisical_mode h (cmd ∷ trace) stack_path cfg;
      }

  -- The stack's state behind the command.
  pub settled_state : List Cmd → (stack_path stack_name repo_name : Bytes) → StackState
  unfolding settle
  settled_state trace stack_path stack_name repo_name =
      let cmd = compose_cmd trace stack_path in
      settle (h.run trace cmd) (list_containers (cmd ∷ trace) stack_path)
        (finished_state trace stack_path stack_name repo_name)

  -- applyStack
  unfoldable pub apply_stack : (stack_path stack_name repo_name : Bytes) → World → World
  apply_stack stack_path stack_name repo_name w =
      let cmd = compose_cmd w.trace stack_path in
      let failure = (h.run w.trace cmd).failure in
      record {
        trace = cmd ∷ w.trace;
        store =
            update_stack (settled_state w.trace stack_path stack_name repo_name)
              (update_stack (applying_state stack_path stack_name repo_name) w.store);
        metrics = record_apply stack_name (outcome failure) w.metrics;
        events =
            finished_event failure repo_name stack_name
            ∷ applying_event repo_name stack_name
            ∷ w.events;
      }

  -- Whether one of the candidates is there.
  abbrev pub has_compose_file : List Cmd → Bytes → Bool
  has_compose_file trace stack_path =
      any (λ name. h.exists trace (join_path stack_path name)) candidates

  -- The body of the loop of runStacksSync.
  pub apply_entry : (stacks_dir repo_name : Bytes) → DirEntry → World → World
  apply_entry stacks_dir repo_name entry w =
      let stack_path = join_path stacks_dir entry.name in
      if entry.is_dir
      then (if has_compose_file w.trace stack_path
          then apply_stack stack_path entry.name repo_name w
          else w)
      else w

  pub apply_entries : (stacks_dir repo_name : Bytes) → List DirEntry → World → World
  apply_entries stacks_dir repo_name [] w = w
  apply_entries stacks_dir repo_name (entry ∷ more) w =
      apply_entries stacks_dir repo_name more (apply_entry stacks_dir repo_name entry w)

  -- runStacksSync
  unfoldable pub run_stacks_sync : (stacks_dir repo_name : Bytes) → World → World
  run_stacks_sync stacks_dir repo_name w =
      if is_empty stacks_dir then w else elim (h.read_dir w.trace stacks_dir) [
        | none ↦ w
        | some entries ↦ apply_entries stacks_dir repo_name entries w
      ]
