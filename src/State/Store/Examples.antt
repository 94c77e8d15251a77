-- ===== src/State/Store/Examples.antt =====
-- Tests of the store.
use stackd.Base.{◌≡◌, ◌↔◌, some, List, [], ◌∷◌, bytes, In, pos}
use stackd.State.{StackState, ContainerDetail, no_repo, no_stack}
use stackd.State.Store.{get_stack, get_all}
use stackd.State.Store.History.{Update, repo, stack, containers, after, snapshot_iff}

abbrev web : StackState
web = record no_stack { name = bytes "web"; repo_name = bytes "infra" }

abbrev dns : StackState
dns = record no_stack { name = bytes "dns"; repo_name = bytes "infra" }

abbrev one : ContainerDetail
one = record {
  id = bytes "4f";
  name = bytes "web-1";
  image = bytes "nginx";
  status = bytes "running";
  started_at = pos 9;
  env = [];
  ports = [];
}

abbrev updates : List Update
updates =
    containers (bytes "infra") (bytes "web") (one ∷ [])
    ∷ stack web
    ∷ repo (record no_repo { name = bytes "infra" })
    ∷ []

snapshot_iff_example :
    In web (get_all (after updates)).stacks
    ↔ (get_stack web.repo_name web.name (after updates) ≡ some web)
snapshot_iff_example = snapshot_iff updates web
