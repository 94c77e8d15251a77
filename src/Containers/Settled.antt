-- ===== src/Containers/Settled.antt =====
-- main.go: what a refresh of the containers leaves alone.
use stackd.Base.{
  ℕ, ◌≡◌, refl, inl, inr, ◌∙◌, Bool-cases, Option-cases, Option, none, some, List, [], ◌∷◌, All-In,
  In-values_of_lookup, Bytes, is_empty, lookup,
}
use stackd.Process.{Cmd}
use stackd.State.{ContainerDetail, StackState}
use stackd.State.Store.{Store, stack_key, get_repo, get_all_stacks, update_stack_containers}
use stackd.State.Store.Laws.{FitsStack}
use stackd.Stacks.Apply.{World}
use stackd.Stacks.Apply.Laws.{values-insert-All, IsSettled, AllSettled}
use stackd.Containers.{containers_in, refresh_stack, refresh_stacks, refresh_with}

pub update_stack_containers-AllSettled :
    (repo name : Bytes) (cs : List ContainerDetail) (s : Store)
    → AllSettled s
    → AllSettled (update_stack_containers repo name cs s)
unfolding update_stack_containers get_all_stacks
update_stack_containers-AllSettled repo name cs s h =
    elim (Option-cases (lookup (stack_key repo name) s.stacks)) [
      | inl e ↦ rw (e, update_stack_containers) h
      | inr (st, e) ↦
          rw (e, update_stack_containers)
            (values-insert-All IsSettled (stack_key repo name) _ s.stacks
              (All-In IsSettled st _ h (In-values_of_lookup FitsStack _ s.stacks st e)) h)
    ]

pub get_repo-update_stack_containers :
    (repo name other : Bytes) (cs : List ContainerDetail) (s : Store)
    → get_repo other (update_stack_containers repo name cs s) ≡ get_repo other s
unfolding update_stack_containers get_repo
get_repo-update_stack_containers repo name other cs s =
    elim (Option-cases (lookup (stack_key repo name) s.stacks)) [
      | inl e ↦ rw (e, update_stack_containers) refl
      | inr (st, e) ↦ rw (e, update_stack_containers) refl
    ]

-- What a refresh keeps: no stack becomes "applying", no repository's state changes, no command runs.
pub record RefreshKeeps (w v : World) : Type 0 where
  pub settled : AllSettled w.store → AllSettled v.store
  pub repos : (name : Bytes) → get_repo name v.store ≡ get_repo name w.store
  pub trace : v.trace ≡ w.trace

module _ (list_containers : List Cmd → Bytes → Option (List ContainerDetail)) where
  refresh_stack-RefreshKeeps :
      (st : StackState) (w : World) → RefreshKeeps w (refresh_stack list_containers st w)
  unfolding refresh_stack
  refresh_stack-RefreshKeeps st w = elim (Bool-cases (is_empty st.stack_dir)) [
    | inl e ↦
        rw (e, refresh_stack) (record { settled = λ h. h; repos = λ name. refl; trace = refl })
    | inr e ↦
        let cs = containers_in list_containers w.trace st.stack_dir in
        rw (e, refresh_stack)
          (record {
            settled = update_stack_containers-AllSettled st.repo_name st.name cs w.store;
            repos = λ name. get_repo-update_stack_containers st.repo_name st.name name cs w.store;
            trace = refl;
          })
  ]

  refresh_stacks-RefreshKeeps :
      (sts : List StackState) (w : World) → RefreshKeeps w (refresh_stacks list_containers sts w)
  unfolding refresh_stacks
  refresh_stacks-RefreshKeeps [] w = record { settled = λ h. h; repos = λ name. refl; trace = refl }
  refresh_stacks-RefreshKeeps (st ∷ sts) w =
      let g = refresh_stack-RefreshKeeps st w in
      let k = refresh_stacks-RefreshKeeps sts (refresh_stack list_containers st w) in
      record {
        settled = λ h. k.settled (g.settled h);
        repos = λ name. k.repos name ∙ g.repos name;
        trace = k.trace ∙ g.trace;
      }

  pub refresh_with-RefreshKeeps :
      (client : Option ℕ) (w : World) → RefreshKeeps w (refresh_with list_containers client w)
  unfolding refresh_with
  refresh_with-RefreshKeeps none w = record { settled = λ h. h; repos = λ name. refl; trace = refl }
  refresh_with-RefreshKeeps (some client) w = refresh_stacks-RefreshKeeps (get_all_stacks w.store) w
