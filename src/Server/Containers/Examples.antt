-- ===== src/Server/Containers/Examples.antt =====
-- Tests of the actions on containers, with a daemon that counts its calls.
use stackd.Base.{
  ℕ, ◌+◌, ◌≡◌, refl, true, false, Option, none, some, List, [], ◌∷◌, Bytes, bytes, pos,
}
use stackd.State.{ContainerDetail, no_stack}
use stackd.State.Store.{Store, new, update_stack}
use stackd.Docker.{Api}
use stackd.Docker.Client.{start_container, restart_container}
use stackd.Server.Containers.{
  Action, action_done, action_failed, docker_unavailable, handle_container_action,
}

abbrev daemon : Api ℕ
daemon = record {
  container_list = λ _ d. (none, d + 1);
  container_inspect = λ _ d. (none, d + 1);
  container_start = λ _ d. (true, d + 1);
  container_stop = λ _ d. (true, d + 1);
  container_restart = λ _ d. (false, d + 1);
  exec_create = λ _ _ _ d. (none, d + 1);
  exec_start = λ _ d. (true, d + 1);
  exec_exit_code = λ _ d. (none, d + 1);
  exec_attach = λ _ d. (true, d + 1);
  exec_resize = λ _ _ _ d. (true, d + 1);
}

started : handle_container_action daemon (some 1) Action.start (bytes "web") 0 ≡ (action_done, 1)
unfolding handle_container_action start_container
started = refl

not_restarted :
    handle_container_action daemon (some 1) Action.restart (bytes "web") 0 ≡ (action_failed, 1)
unfolding handle_container_action restart_container
not_restarted = refl

no_client :
    handle_container_action daemon none Action.start (bytes "web") 0 ≡ (docker_unavailable, 0)
unfolding handle_container_action
no_client = refl

abbrev store : Store
store = update_stack (record no_stack { name = bytes "web"; repo_name = bytes "infra" }) new

abbrev list : Bytes → Option (List ContainerDetail)
list dir = some (
    record {
      id = bytes "c1";
      name = bytes "web-1";
      image = [];
      status = bytes "running";
      started_at = pos 0;
      env = [];
      ports = [];
    }
    ∷ [])
