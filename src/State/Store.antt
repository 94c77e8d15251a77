-- ===== src/State/Store.antt =====
-- internal/state/state.go: Store. Each method holds the store's lock for its whole run, so it is one
-- step. A map's pointers are never shared, so an entry is a value.
pub mod Laws
pub mod History
mod Examples
use stackd.Base.{
  Bool, false, Option, none, some, List, [], ◌∷◌, ◌++◌, Bytes, bytes, Assoc, lookup, insert, values,
}
use stackd.State.{RepoState, StackState, ContainerDetail, InfisicalState, FullState}

pub record Store : Type 0 where
  pub repos : Assoc RepoState
  pub stacks : Assoc StackState
  pub infisical : InfisicalState

-- New
unfoldable pub new : Store
new = record { repos = []; stacks = []; infisical = record { enabled = false; env = [] } }

-- repoName + "/" + name
abbrev pub stack_key : Bytes → Bytes → Bytes
stack_key repo name = repo ++ (bytes "/" ++ name)

unfoldable pub update_repo : RepoState → Store → Store
update_repo r s = record s { repos = insert r.name r s.repos }

-- GetRepo; where the source returns RepoState{} and false, `none`.
unfoldable pub get_repo : Bytes → Store → Option RepoState
get_repo name s = lookup name s.repos

unfoldable pub get_all_repos : Store → List RepoState
get_all_repos s = values s.repos

unfoldable pub update_stack : StackState → Store → Store
update_stack st s = record s { stacks = insert (stack_key st.repo_name st.name) st s.stacks }

unfoldable pub get_stack : Bytes → Bytes → Store → Option StackState
get_stack repo name s = lookup (stack_key repo name) s.stacks

-- UpdateStackContainers. A nil slice is stored as an empty one, and both are the empty list.
unfoldable pub update_stack_containers : Bytes → Bytes → List ContainerDetail → Store → Store
update_stack_containers repo name containers s = elim (lookup (stack_key repo name) s.stacks) [
  | none ↦ s
  | some st ↦ record s {
    stacks = insert (stack_key repo name) (record st { containers = containers }) s.stacks;
  }
]

unfoldable pub get_all_stacks : Store → List StackState
get_all_stacks s = values s.stacks

unfoldable pub set_infisical : InfisicalState → Store → Store
set_infisical i s = record s { infisical = i }

unfoldable pub get_all : Store → FullState
get_all s = record { repos = values s.repos; stacks = values s.stacks; infisical = s.infisical }
