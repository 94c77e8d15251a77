-- ===== src/Stacks/Apply/Laws.antt =====
-- main.go: the store after the stacks of a repository were applied.
use stackd.Base.{
  ◌≡◌, ◌≢◌, inl, inr, refl, ap, Bool-cases, Option-cases, Option, List, [], ◌∷◌, All, arith, Bytes,
  str_eq, str_eq_iff, Assoc, insert, values,
}
use stackd.Process.{Cmd, Ran, DirEntry, Host}
use stackd.Paths.{join_path}
use stackd.State.{StackState, ApplyStatus, ContainerDetail}
use stackd.State.Store.{Store, stack_key, update_stack, get_all_stacks}
use stackd.Stacks.Compose.{InfisicalConfig}
use stackd.Stacks.Apply.{
  World, compose_cmd, finished_state, applying_state, settle, settled_state, apply_stack,
  apply_entry, apply_entries, run_stacks_sync, has_compose_file,
}

insert-insert :
    {V : Type 0} (k j : Bytes) (u v : V) (m : Assoc V)
    → j ≡ k
    → insert j v (insert k u m) ≡ insert j v m
unfolding insert
insert-insert k j u v [] e = ground (arith, str_eq_iff k j)
insert-insert k j u v ((i, w) ∷ m) e =
    ground (arith, insert-insert k j u v m e, str_eq_iff k j, str_eq_iff i k, str_eq_iff i j)

pub values-insert-All :
    {V : Type 0} (P : V → Type 0) (k : Bytes) (v : V) (m : Assoc V)
    → P v
    → All P (values m)
    → All P (values (insert k v m))
unfolding insert
values-insert-All P k v [] p h = (p, tt)
values-insert-All P k v ((i, w) ∷ m) p (q, h) = elim (Bool-cases (str_eq i k)) [
  | inl e ↦ rw e (p, h)
  | inr e ↦ rw e (q, values-insert-All P k v m p h)
]

abbrev pub IsSettled : StackState → Type 0
IsSettled st = st.status ≢ ApplyStatus.applying

-- No stack of the store is left in the state "applying".
abbrev pub AllSettled : Store → Type 0
AllSettled s = All IsSettled (get_all_stacks s)

settle-IsSettled :
    (r : Ran) (ctrs : Option (List ContainerDetail)) (st : StackState)
    → IsSettled (settle r ctrs st)
unfolding settle
settle-IsSettled r ctrs st = λ e. ground arith

settle-names :
    (r : Ran) (ctrs : Option (List ContainerDetail)) (st : StackState)
    → ((settle r ctrs st).name ≡ st.name) × ((settle r ctrs st).repo_name ≡ st.repo_name)
unfolding settle
settle-names r ctrs st = (ground arith, ground arith)

-- Two updates of one stack come to the second.
update_stack-update_stack :
    (st su : StackState) (s : Store)
    → (su.name ≡ st.name) × (su.repo_name ≡ st.repo_name)
    → update_stack su (update_stack st s) ≡ update_stack su s
unfolding update_stack
update_stack-update_stack st su s (e, f) =
    ap (λ m. record s { stacks = m })
      (insert-insert (stack_key st.repo_name st.name) (stack_key su.repo_name su.name) st su
        s.stacks (rw (e, f) refl))

update_stack-AllSettled :
    (st : StackState) (s : Store) → IsSettled st → AllSettled s → AllSettled (update_stack st s)
unfolding update_stack get_all_stacks
update_stack-AllSettled st s p h =
    values-insert-All IsSettled (stack_key st.repo_name st.name) st s.stacks p h

module _ (h : Host) (list_containers : List Cmd → Bytes → Option (List ContainerDetail))
    (cfg : InfisicalConfig) where
  settled_state-IsSettled :
      (trace : List Cmd) (path name repo : Bytes)
      → IsSettled (settled_state h list_containers cfg trace path name repo)
  unfolding settled_state
  settled_state-IsSettled trace path name repo =
      let cmd = compose_cmd h list_containers cfg trace path in
      settle-IsSettled (h.run trace cmd) (list_containers (cmd ∷ trace) path)
        (finished_state h list_containers cfg trace path name repo)

  pub settled_state-names :
      (trace : List Cmd) (path name repo : Bytes)
      → ((settled_state h list_containers cfg trace path name repo).name ≡ name)
        × ((settled_state h list_containers cfg trace path name repo).repo_name ≡ repo)
  unfolding settled_state
  settled_state-names trace path name repo =
      let cmd = compose_cmd h list_containers cfg trace path in
      settle-names (h.run trace cmd) (list_containers (cmd ∷ trace) path)
        (finished_state h list_containers cfg trace path name repo)

  pub apply_stack-store :
      (path name repo : Bytes) (w : World)
      → (apply_stack h list_containers cfg path name repo w).store
        ≡ update_stack (settled_state h list_containers cfg w.trace path name repo) w.store
  unfolding apply_stack
  apply_stack-store path name repo w =
      update_stack-update_stack (applying_state path name repo) _ w.store
        (settled_state-names w.trace path name repo)

  -- An apply of a stack leaves no stack "applying", if none was.
  pub apply_stack-AllSettled :
      (path name repo : Bytes) (w : World)
      → AllSettled w.store
      → AllSettled (apply_stack h list_containers cfg path name repo w).store
  apply_stack-AllSettled path name repo w k =
      rw (apply_stack-store path name repo w)
        (update_stack-AllSettled _ w.store (settled_state-IsSettled w.trace path name repo) k)

  apply_entry-AllSettled :
      (dir repo : Bytes) (entry : DirEntry) (w : World)
      → AllSettled w.store
      → AllSettled (apply_entry h list_containers cfg dir repo entry w).store
  unfolding apply_entry
  apply_entry-AllSettled dir repo entry w k = elim (Bool-cases entry.is_dir) [
    | inr e ↦ rw (e, apply_entry) k
    | inl e ↦
        elim (Bool-cases
          (has_compose_file h list_containers cfg w.trace (join_path dir entry.name))) [
            | inr f ↦ rw (e, apply_entry) (rw f k)
            | inl f ↦
                rw (e, apply_entry)
                  (rw f (apply_stack-AllSettled (join_path dir entry.name) entry.name repo w k))
          ]
  ]

  apply_entries-AllSettled :
      (dir repo : Bytes) (entries : List DirEntry) (w : World)
      → AllSettled w.store
      → AllSettled (apply_entries h list_containers cfg dir repo entries w).store
  unfolding apply_entries
  apply_entries-AllSettled dir repo [] w k = k
  apply_entries-AllSettled dir repo (entry ∷ more) w k =
      apply_entries-AllSettled dir repo more _ (apply_entry-AllSettled dir repo entry w k)

  -- Once the stacks of a repository were applied, whatever succeeded and whatever failed, no stack is
  -- left in the state "applying", if none was before.
  pub run_stacks_sync-AllSettled :
      (dir repo : Bytes) (w : World)
      → AllSettled w.store
      → AllSettled (run_stacks_sync h list_containers cfg dir repo w).store
  unfolding run_stacks_sync
  run_stacks_sync-AllSettled [] repo w k = k
  run_stacks_sync-AllSettled (c ∷ dir) repo w k =
      elim (Option-cases (h.read_dir w.trace (c ∷ dir))) [
        | inl e ↦ rw (e, run_stacks_sync) k
        | inr (entries, e) ↦
            rw (e, run_stacks_sync) (apply_entries-AllSettled (c ∷ dir) repo entries w k)
      ]
