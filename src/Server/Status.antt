-- ===== src/Server/Status.antt =====
-- internal/server/server.go: handleStatus and the readiness probe. The JSON text is left out.
mod Laws
mod Examples
use stackd.Base.{
  ℕ, ◌&&◌, not, Bool, true, false, Option, none, some, List, [], ◌∷◌, ◌++◌, any, map, if◌then◌else◌,
  Bytes, ℤ, Assoc, lookup, insert,
}
use stackd.State.{SyncStatus, RepoState, StackState, InfisicalState, FullState}
use stackd.State.Store.{Store, get_all, get_all_repos, get_all_stacks}
use stackd.Schedule.{is_zero}

-- repoView
pub record RepoView : Type 0 where
  pub name : Bytes
  pub last_sync : ℤ
  pub last_sha : Bytes
  pub status : SyncStatus
  pub last_error : Bytes
  pub infisical : InfisicalState
  pub stacks : List StackState

pub record StatusResponse : Type 0 where
  pub repos : List RepoView
  pub infisical : InfisicalState

abbrev pub or_empty : Option (List StackState) → List StackState
or_empty none = []
or_empty (some sts) = sts

-- The loop that groups the stacks by repoName.
pub group : Assoc (List StackState) → List StackState → Assoc (List StackState)
group by_repo [] = by_repo
group by_repo (st ∷ more) =
    group (insert st.repo_name (or_empty (lookup st.repo_name by_repo) ++ st ∷ []) by_repo) more

abbrev pub view : InfisicalState → Assoc (List StackState) → RepoState → RepoView
view infisical by_repo r = record {
  name = r.name;
  last_sync = r.last_sync;
  last_sha = r.last_sha;
  status = r.status;
  last_error = r.last_error;
  infisical = infisical;
  stacks = or_empty (lookup r.name by_repo);
}

-- handleStatus
unfoldable pub handle_status : Store → StatusResponse
unfolding group
handle_status store =
    let full = get_all store in
    record {
      repos = map (view full.infisical (group [] full.stacks)) full.repos;
      infisical = full.infisical;
    }

abbrev is_nil : List RepoState → Bool
is_nil [] = true
is_nil (r ∷ rs) = false

-- The readiness probe: whether it answers "ready" with 200, or else 503 with both flags.
pub data Readiness : Type 0 where
  ready : Readiness
  not_ready : (docker synced : Bool) → Readiness

unfoldable pub readyz : (docker_ok : Bool) → Store → Readiness
readyz docker_ok store =
    let synced =
      if any (λ (st : StackState). not (is_zero st.last_apply)) (get_all_stacks store)
      then true
      else is_nil (get_all_repos store) in
    if docker_ok && synced then ready else not_ready docker_ok synced
