-- ===== src/Server/Containers.antt =====
-- internal/server/server.go: handleContainerAction and refreshContainerState. Timeouts and logging
-- are left out; the refresh is a goroutine of its own, so a step of its own.
mod Laws
mod Examples
use stackd.Base.{
  ℕ, Bool, true, false, Option, none, some, List, [], ◌∷◌, if◌then◌else◌, any, Bytes, str_eq,
}
use stackd.State.{ContainerDetail, StackState}
use stackd.State.Store.{Store, get_all_stacks, update_stack_containers}
use stackd.Docker.{Api}
use stackd.Docker.Client.{start_container, stop_container, restart_container}

-- The words that the routes pass on.
pub data Action : Type 0 where
  start stop restart unknown : Action

-- The JSON answers with 503, 400, 500 and 200.
pub data ActionAnswer : Type 0 where
  docker_unavailable unknown_action action_failed action_done : ActionAnswer

abbrev answered : Bool → ActionAnswer
answered true = action_done
answered false = action_failed

module _ {D : Type 0} (api : Api D) where
  abbrev act : Action → Bytes → D → Bool × D
  act Action.start name d = start_container api name d
  act Action.stop name d = stop_container api name d
  act Action.restart name d = restart_container api name d
  act unknown name d = (false, d)

  abbrev pub perform : Action → Bytes → D → ActionAnswer × D
  perform unknown name d = (unknown_action, d)
  perform action name d = let (ok, d') = act action name d in (answered ok, d')

  -- handleContainerAction; `client` is what the holder has. With `action_done` the goroutine of
  -- refresh_container_state starts.
  unfoldable pub handle_container_action :
      (client : Option ℕ) → Action → Bytes → D → ActionAnswer × D
  handle_container_action none action name d = (docker_unavailable, d)
  handle_container_action (some c) action name d = perform action name d

-- The loop over the details of a stack.
abbrev pub has_container : Bytes → List ContainerDetail → Bool
has_container name ds = any (λ (c : ContainerDetail). str_eq c.name name) ds

module _ (list : Bytes → Option (List ContainerDetail)) where
  -- The containers that replace those of a stack, if any.
  abbrev pub replacement : Bytes → StackState → Option (List ContainerDetail)
  replacement name st = elim (list st.stack_dir) [
    | none ↦ none
    | some ds ↦ if has_container name ds then some ds else none
  ]

  pub refresh_stack : Bytes → StackState → Store → Store
  refresh_stack name st s = elim (replacement name st) [
    | none ↦ s
    | some ds ↦ update_stack_containers st.repo_name st.name ds s
  ]

  pub refresh_from : Bytes → List StackState → Store → Store
  unfolding refresh_stack
  refresh_from name [] s = s
  refresh_from name (st ∷ sts) s = refresh_from name sts (refresh_stack name st s)

  -- refreshContainerState
  unfoldable pub refresh_container_state : (client : Option ℕ) → Bytes → Store → Store
  unfolding refresh_from
  refresh_container_state none name s = s
  refresh_container_state (some c) name s = refresh_from name (get_all_stacks s) s
