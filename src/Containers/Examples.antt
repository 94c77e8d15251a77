-- ===== src/Containers/Examples.antt =====
-- Tests of the refresh of the containers of one stack.
use stackd.Base.{
  ◌≡◌, refl, Option, none, some, List, [], ◌∷◌, arith, All, Bytes, bytes, text, pos, lookup, insert,
}
use stackd.Process.{Cmd}
use stackd.State.{ContainerDetail, StackState, no_stack}
use stackd.State.Store.{new, update_stack, get_all_stacks}
use stackd.State.Store.Laws.{HasNoSlash, new-IsConsistent, update_stack-IsConsistent}
use stackd.Metrics.{no_metrics, set_containers_running}
use stackd.Stacks.Apply.{World}
use stackd.Containers.{refresh_stack, refresh_stacks, refresh_with}
use stackd.Containers.Effect.{gauge}
use stackd.Containers.Laws.{IsRefreshed, refresh_with-IsRefreshed}

abbrev web : StackState
web = record no_stack {
  name = bytes "web";
  repo_name = bytes "infra";
  stack_dir = bytes "/data/infra/web";
}

abbrev world : World
world = record { trace = []; store = update_stack web new; metrics = no_metrics; events = [] }

abbrev container : ContainerDetail
container = record {
  id = bytes "c1";
  name = bytes "web-1";
  image = [];
  status = bytes "running";
  started_at = pos 0;
  env = [];
  ports = [];
}

abbrev list_containers : List Cmd → Bytes → Option (List ContainerDetail)
list_containers _ _ = some (container ∷ [])

counted : gauge (bytes "infra") (bytes "web") (refresh_with list_containers (some 1) world) ≡ some 1
unfolding refresh_with refresh_stacks refresh_stack get_all_stacks update_stack new lookup insert
    set_containers_running text
counted = refl

no_client : refresh_with list_containers none world ≡ world
unfolding refresh_with
no_client = refl

infra-HasNoSlash : HasNoSlash (bytes "infra")
infra-HasNoSlash = ground arith

world-HasNoSlash : All (λ st. HasNoSlash st.repo_name) (get_all_stacks world.store)
unfolding get_all_stacks update_stack new insert
world-HasNoSlash = (infra-HasNoSlash, tt)

refresh_with-IsRefreshed_example :
    IsRefreshed list_containers
      (bytes "infra")
      (bytes "web")
      infra-HasNoSlash
      world
      (refresh_with list_containers (some 1) world)
refresh_with-IsRefreshed_example =
    refresh_with-IsRefreshed list_containers (bytes "infra") (bytes "web") infra-HasNoSlash 1 world
      (update_stack-IsConsistent new-IsConsistent web) world-HasNoSlash
