-- ===== src/State/Store/History.antt =====
-- internal/state/state.go: the store after any sequence of updates.
use stackd.Base.{◌≡◌, ◌↔◌, some, List, [], ◌∷◌, Bytes, In}
use stackd.State.{RepoState, StackState, ContainerDetail, InfisicalState}
use stackd.State.Store.{
  Store, new, update_repo, update_stack, update_stack_containers, set_infisical, get_stack, get_all,
}
use stackd.State.Store.Laws.{
  IsConsistent, new-IsConsistent, update_repo-IsConsistent, update_stack-IsConsistent,
  update_stack_containers-IsConsistent, In-get_all_iff,
}

-- A call that changes the store.
pub data Update : Type 0 where
  repo : RepoState → Update
  stack : StackState → Update
  containers : (repo name : Bytes) → List ContainerDetail → Update
  infisical : InfisicalState → Update

abbrev pub perform : Update → Store → Store
perform (repo r) s = update_repo r s
perform (stack st) s = update_stack st s
perform (containers r n cs) s = update_stack_containers r n cs s
perform (infisical i) s = set_infisical i s

-- The store after the updates, of which the latest is the head.
abbrev pub after : List Update → Store
after [] = new
after (u ∷ us) = perform u (after us)

set_infisical-IsConsistent :
    {s : Store} → IsConsistent s → (i : InfisicalState) → IsConsistent (set_infisical i s)
unfolding set_infisical
set_infisical-IsConsistent h i = record { repos = h.repos; stacks = h.stacks }

-- After any updates each state stands under the key of its names, and no key stands twice.
pub after-IsConsistent : (us : List Update) → IsConsistent (after us)
after-IsConsistent [] = new-IsConsistent
after-IsConsistent (repo r ∷ us) = update_repo-IsConsistent (after-IsConsistent us) r
after-IsConsistent (stack st ∷ us) = update_stack-IsConsistent (after-IsConsistent us) st
after-IsConsistent (containers r n cs ∷ us) =
    update_stack_containers-IsConsistent (after-IsConsistent us) r n cs
after-IsConsistent (infisical i ∷ us) = set_infisical-IsConsistent (after-IsConsistent us) i

-- After any updates the snapshot that GetAll makes lists exactly the stacks that GetStack finds.
pub snapshot_iff :
    (us : List Update) (st : StackState)
    → In st (get_all (after us)).stacks ↔ (get_stack st.repo_name st.name (after us) ≡ some st)
snapshot_iff us st = In-get_all_iff (after-IsConsistent us) st
