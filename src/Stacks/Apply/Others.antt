-- ===== src/Stacks/Apply/Others.antt =====
-- main.go: what applying the stacks of one repository leaves alone.
use stackd.Base.{
  ◌≡◌, inl, inr, refl, subst, sym, ◌∙◌, Bool-cases, Option-cases, false, Option, List, [], ◌∷◌,
  Bytes, str_eq,
}
use stackd.Process.{Cmd, DirEntry, Host}
use stackd.Paths.{join_path}
use stackd.State.{ContainerDetail}
use stackd.State.Store.{Store, get_stack, get_repo}
use stackd.State.Store.Laws.{HasNoSlash, get_stack-update_stack, get_repo-update_stack}
use stackd.Stacks.Compose.{InfisicalConfig}
use stackd.Stacks.Apply.{
  World, settled_state, apply_entry, apply_entries, run_stacks_sync, has_compose_file,
}
use stackd.Stacks.Apply.Laws.{settled_state-names, apply_stack-store}

-- What the stacks of one repository leave alone: the repositories, and the stacks of the others.
pub record KeepsOthers (repo : Bytes) (s t : Store) : Type 0 where
  pub repos : (name : Bytes) → get_repo name t ≡ get_repo name s
  pub stacks :
      (other name : Bytes)
      → HasNoSlash other
      → str_eq repo other ≡ false
      → get_stack other name t ≡ get_stack other name s

module _ (h : Host) (list_containers : List Cmd → Bytes → Option (List ContainerDetail))
    (cfg : InfisicalConfig) where
  apply_entry-get_repo :
      (dir repo : Bytes) (entry : DirEntry) (w : World) (name : Bytes)
      → get_repo name (apply_entry h list_containers cfg dir repo entry w).store
        ≡ get_repo name w.store
  unfolding apply_entry
  apply_entry-get_repo dir repo entry w name =
      let path = join_path dir entry.name in
      let su = settled_state h list_containers cfg w.trace path entry.name repo in
      elim (Bool-cases entry.is_dir) [
        | inr e ↦ rw (e, apply_entry) refl
        | inl e ↦ elim (Bool-cases (has_compose_file h list_containers cfg w.trace path)) [
          | inr f ↦ rw (e, apply_entry) (rw f refl)
          | inl f ↦
              rw (e, apply_entry)
                (rw f (
                  rw (apply_stack-store h list_containers cfg path entry.name repo w)
                    (get_repo-update_stack su name w.store)))
        ]
      ]

  apply_entries-get_repo :
      (dir repo : Bytes) (entries : List DirEntry) (w : World) (name : Bytes)
      → get_repo name (apply_entries h list_containers cfg dir repo entries w).store
        ≡ get_repo name w.store
  unfolding apply_entries
  apply_entries-get_repo dir repo [] w name = refl
  apply_entries-get_repo dir repo (entry ∷ more) w name =
      apply_entries-get_repo dir repo more _ name ∙ apply_entry-get_repo dir repo entry w name

  pub run_stacks_sync-get_repo :
      (dir repo : Bytes) (w : World) (name : Bytes)
      → get_repo name (run_stacks_sync h list_containers cfg dir repo w).store
        ≡ get_repo name w.store
  unfolding run_stacks_sync
  run_stacks_sync-get_repo [] repo w name = refl
  run_stacks_sync-get_repo (c ∷ dir) repo w name =
      elim (Option-cases (h.read_dir w.trace (c ∷ dir))) [
        | inl e ↦ rw (e, run_stacks_sync) refl
        | inr (entries, e) ↦
            rw (e, run_stacks_sync) (apply_entries-get_repo (c ∷ dir) repo entries w name)
      ]

  apply_entry-KeepsOthers :
      (dir repo : Bytes) (entry : DirEntry) (w : World)
      → HasNoSlash repo
      → KeepsOthers repo w.store (apply_entry h list_containers cfg dir repo entry w).store
  unfolding apply_entry
  apply_entry-KeepsOthers dir repo entry w k =
      let path = join_path dir entry.name in
      let su = settled_state h list_containers cfg w.trace path entry.name repo in
      let (_, named) = settled_state-names h list_containers cfg w.trace path entry.name repo in
      let same : KeepsOthers repo w.store w.store = record {
        repos = λ name. refl;
        stacks = λ other name _ _. refl;
      } in
      elim (Bool-cases entry.is_dir) [
        | inr e ↦ rw (e, apply_entry) same
        | inl e ↦ elim (Bool-cases (has_compose_file h list_containers cfg w.trace path)) [
          | inr f ↦ rw (e, apply_entry) (rw f same)
          | inl f ↦
              rw (e, apply_entry)
                (rw f (
                  rw (apply_stack-store h list_containers cfg path entry.name repo w) (record {
                    repos = λ name. get_repo-update_stack su name w.store;
                    stacks = λ other name l n.
                        get_stack-update_stack su other name w.store
                          (subst HasNoSlash (sym named) k) l
                        ∙ rw (named, n) refl;
                  })))
        ]
      ]

  apply_entries-KeepsOthers :
      (dir repo : Bytes) (entries : List DirEntry) (w : World)
      → HasNoSlash repo
      → KeepsOthers repo w.store (apply_entries h list_containers cfg dir repo entries w).store
  unfolding apply_entries
  apply_entries-KeepsOthers dir repo [] w k = record {
    repos = λ name. refl;
    stacks = λ other name _ _. refl;
  }
  apply_entries-KeepsOthers dir repo (entry ∷ more) w k =
      let a = apply_entry-KeepsOthers dir repo entry w k in
      let b = apply_entries-KeepsOthers dir repo more _ k in
      record {
        repos = λ name. b.repos name ∙ a.repos name;
        stacks = λ other name l n. b.stacks other name l n ∙ a.stacks other name l n;
      }

  -- Applying the stacks of a repository whose name has no '/' changes the state of no repository and
  -- of no stack of another repository.
  pub run_stacks_sync-KeepsOthers :
      (dir repo : Bytes) (w : World)
      → HasNoSlash repo
      → KeepsOthers repo w.store (run_stacks_sync h list_containers cfg dir repo w).store
  unfolding run_stacks_sync
  run_stacks_sync-KeepsOthers [] repo w k = record {
    repos = λ name. refl;
    stacks = λ other name _ _. refl;
  }
  run_stacks_sync-KeepsOthers (c ∷ dir) repo w k =
      elim (Option-cases (h.read_dir w.trace (c ∷ dir))) [
        | inl e ↦
            rw (e, run_stacks_sync)
              (record { repos = λ name. refl; stacks = λ other name _ _. refl })
        | inr (entries, e) ↦
            rw (e, run_stacks_sync) (apply_entries-KeepsOthers (c ∷ dir) repo entries w k)
      ]
