-- ===== src/Server/Containers/Laws.antt =====
-- internal/server/server.go: what an action on a container leaves of the store.
use stackd.Base.{
  ℕ, ◌≡◌, refl, inl, inr, ◌∙◌, Option-cases, Option, none, some, List, [], ◌∷◌, Bytes,
}
use stackd.State.{ContainerDetail, StackState}
use stackd.State.Store.{Store, get_repo, get_all_stacks}
use stackd.State.Store.Laws.{IsConsistent, update_stack_containers-IsConsistent}
use stackd.Stacks.Apply.Laws.{AllSettled}
use stackd.Containers.Settled.{update_stack_containers-AllSettled, get_repo-update_stack_containers}
use stackd.Server.Containers.{replacement, refresh_stack, refresh_from, refresh_container_state}

-- What a refresh of the dashboard keeps of a store.
pub record StoreKeeps (s t : Store) : Type 0 where
  pub consistent : IsConsistent s → IsConsistent t
  pub settled : AllSettled s → AllSettled t
  pub repos : (name : Bytes) → get_repo name t ≡ get_repo name s

same-StoreKeeps : (s : Store) → StoreKeeps s s
same-StoreKeeps s = record { consistent = λ h. h; settled = λ h. h; repos = λ name. refl }

module _ (list : Bytes → Option (List ContainerDetail)) (name : Bytes) where
  refresh_stack-StoreKeeps :
      (st : StackState) (s : Store) → StoreKeeps s (refresh_stack list name st s)
  unfolding refresh_stack
  refresh_stack-StoreKeeps st s = elim (Option-cases (replacement list name st)) [
    | inl e ↦ rw (e, refresh_stack) (same-StoreKeeps s)
    | inr (ds, e) ↦
        rw (e, refresh_stack)
          (record {
            consistent = λ h. update_stack_containers-IsConsistent h st.repo_name st.name ds;
            settled = update_stack_containers-AllSettled st.repo_name st.name ds s;
            repos = λ other. get_repo-update_stack_containers st.repo_name st.name other ds s;
          })
  ]

  refresh_from-StoreKeeps :
      (sts : List StackState) (s : Store) → StoreKeeps s (refresh_from list name sts s)
  unfolding refresh_from
  refresh_from-StoreKeeps [] s = same-StoreKeeps s
  refresh_from-StoreKeeps (st ∷ sts) s =
      let a = refresh_stack-StoreKeeps st s in
      let b = refresh_from-StoreKeeps sts (refresh_stack list name st s) in
      record {
        consistent = λ h. b.consistent (a.consistent h);
        settled = λ h. b.settled (a.settled h);
        repos = λ other. b.repos other ∙ a.repos other;
      }

  -- The refresh behind an action on a container keeps the store consistent, makes no stack
  -- "applying" and changes no repository, whatever the daemon lists.
  pub refresh_container_state-StoreKeeps :
      (client : Option ℕ) (s : Store) → StoreKeeps s (refresh_container_state list client name s)
  unfolding refresh_container_state
  refresh_container_state-StoreKeeps none s = same-StoreKeeps s
  refresh_container_state-StoreKeeps (some c) s = refresh_from-StoreKeeps (get_all_stacks s) s
