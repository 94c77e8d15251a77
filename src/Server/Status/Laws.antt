-- ===== src/Server/Status/Laws.antt =====
-- internal/server/server.go: each repository is shown with its own stacks.
use stackd.Base.{
  ◌≡◌, refl, ap, sym, ◌∙◌, inl, inr, Bool-cases, List, [], ◌∷◌, ◌++◌, map, keep, Bytes, Assoc,
  lookup, insert, lookup-insert, str_eq, str_eq_iff, append_assoc, append-nil,
}
use stackd.State.{RepoState, StackState, InfisicalState, FullState}
use stackd.State.Store.{Store, get_all}
use stackd.Server.Status.{RepoView, StatusResponse, or_empty, group, view, handle_status}

-- The stacks of a repository, in the order of the list.
abbrev pub stacks_of : Bytes → List StackState → List StackState
stacks_of name = keep (λ st. str_eq st.repo_name name)

lookup-group :
    (name : Bytes) (by_repo : Assoc (List StackState)) (stacks : List StackState)
    → or_empty (lookup name (group by_repo stacks))
      ≡ or_empty (lookup name by_repo) ++ stacks_of name stacks
unfolding group
lookup-group name by_repo [] = sym (append-nil _)
lookup-group name by_repo (st ∷ more) =
    let grown = or_empty (lookup st.repo_name by_repo) ++ st ∷ [] in
    lookup-group name (insert st.repo_name grown by_repo) more
    ∙ elim (Bool-cases (str_eq st.repo_name name)) [
      | inl e ↦
          rw (lookup-insert, e)
            (append_assoc (or_empty (lookup st.repo_name by_repo)) (st ∷ []) (stacks_of name more)
              ∙ ap (λ n. or_empty (lookup n by_repo) ++ st ∷ stacks_of name more)
                  ((str_eq_iff st.repo_name name).0 e))
      | inr e ↦ rw (lookup-insert, e) refl
    ]

-- How a repository is shown: with its own state, with the state of Infisical, and with the stacks of
-- its name and no other, in the store's order.
pub record IsShown (shared : InfisicalState) (stacks : List StackState) (r : RepoState)
    (v : RepoView) : Type 0 where
  pub name : v.name ≡ r.name
  pub last_sync : v.last_sync ≡ r.last_sync
  pub last_sha : v.last_sha ≡ r.last_sha
  pub status : v.status ≡ r.status
  pub last_error : v.last_error ≡ r.last_error
  pub infisical : v.infisical ≡ shared
  pub own_stacks : v.stacks ≡ stacks_of r.name stacks

-- What the status shows: one view for each repository, in the store's order.
abbrev pub AllShown : InfisicalState → List StackState → List RepoState → List RepoView → Type 0
AllShown i stacks [] [] = Unit
AllShown i stacks [] (v ∷ vs) = ⊥
AllShown i stacks (r ∷ rs) [] = ⊥
AllShown i stacks (r ∷ rs) (v ∷ vs) = IsShown i stacks r v × AllShown i stacks rs vs

pub record Shows (store : FullState) (response : StatusResponse) : Type 0 where
  pub infisical : response.infisical ≡ store.infisical
  pub repos : AllShown store.infisical store.stacks store.repos response.repos

views-AllShown :
    (i : InfisicalState) (stacks : List StackState) (rs : List RepoState)
    → AllShown i stacks rs (map (view i (group [] stacks)) rs)
unfolding lookup
views-AllShown i stacks [] = tt
views-AllShown i stacks (r ∷ rs) = (
  record {
    name = refl;
    last_sync = refl;
    last_sha = refl;
    status = refl;
    last_error = refl;
    infisical = refl;
    own_stacks = lookup-group r.name [] stacks;
  },
  views-AllShown i stacks rs,
)

-- The status lists the repositories of the store in its order, each with its name, last sync, SHA,
-- status and error as the store has them, with the state of Infisical, and with exactly the stacks of
-- the store that have its name, in the store's order.
pub handle_status-Shows : (store : Store) → Shows (get_all store) (handle_status store)
unfolding handle_status
handle_status-Shows store = record {
  infisical = refl;
  repos = views-AllShown (get_all store).infisical (get_all store).stacks (get_all store).repos;
}
