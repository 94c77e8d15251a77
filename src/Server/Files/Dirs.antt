-- ===== src/Server/Files/Dirs.antt =====
-- internal/server/server.go: the directory of the stack whose compose file is asked for.
use stackd.Base.{
  ◌≡◌, ◌≢◌, ◌&&◌, &&-eq-true, inl, inr, refl, ap, sym, subst, ◌∙◌, Bool-cases, Option-cases, Option,
  none, some, List, [], ◌∷◌, arith, In, All, All-In, In-values_of_lookup, lookup-Fits, values,
  false, Bytes, is_empty, is_empty-eq-true, is_empty-eq-false, str_eq, str_eq_iff,
}
use stackd.State.{StackState}
use stackd.State.Store.{Store, stack_key, get_all, get_stack}
use stackd.State.Store.Laws.{
  HasNoSlash, IsConsistent, FitsStack, In-get_all_iff, stack_key_injective,
}
use stackd.Server.Files.{stack_dir_of}

-- A stack of a list that has the names, with its directory.
pub record HasDir (repo_name stack_name dir : Bytes) (sts : List StackState) : Type 0 where
  pub stack : StackState
  pub listed : In stack sts
  pub repo : stack.repo_name ≡ repo_name
  pub name : stack.name ≡ stack_name
  pub in_dir : stack.stack_dir ≡ dir

stack_dir_of-HasDir :
    (repo_name stack_name : Bytes) (sts : List StackState)
    → stack_dir_of repo_name stack_name sts ≢ []
    → HasDir repo_name stack_name (stack_dir_of repo_name stack_name sts) sts
unfolding stack_dir_of
stack_dir_of-HasDir repo_name stack_name [] n = absurd (n refl)
stack_dir_of-HasDir repo_name stack_name (st ∷ sts) n =
    elim (Bool-cases (str_eq st.repo_name repo_name && str_eq st.name stack_name)) [
      | inl e ↦
          let (r, m) = &&-eq-true _ _ e in
          rw (e, stack_dir_of)
            (record {
              stack = st;
              listed = inl refl;
              repo = (str_eq_iff st.repo_name repo_name).0 r;
              name = (str_eq_iff st.name stack_name).0 m;
              in_dir = refl;
            })
      | inr e ↦
          let k = stack_dir_of-HasDir repo_name stack_name sts (rw (e, stack_dir_of) at n) in
          rw (e, stack_dir_of)
            (record {
              stack = k.stack;
              listed = inr k.listed;
              repo = k.repo;
              name = k.name;
              in_dir = k.in_dir;
            })
    ]

-- The directory of a stack, if there is one.
abbrev pub dir_of : Option StackState → Bytes
dir_of none = []
dir_of (some st) = st.stack_dir

-- The names of a stack in a list are found.
found-HasDir :
    (st : StackState) (sts : List StackState)
    → In st sts
    → HasDir st.repo_name st.name (stack_dir_of st.repo_name st.name sts) sts
unfolding stack_dir_of
found-HasDir st [] i = absurd i
found-HasDir st (x ∷ sts) i =
    elim (Bool-cases (str_eq x.repo_name st.repo_name && str_eq x.name st.name)) [
      | inl e ↦
          let (r, m) = &&-eq-true _ _ e in
          rw (e, stack_dir_of)
            (record {
              stack = x;
              listed = inl refl;
              repo = (str_eq_iff x.repo_name st.repo_name).0 r;
              name = (str_eq_iff x.name st.name).0 m;
              in_dir = refl;
            })
      | inr e ↦
          let k = found-HasDir st sts (behind i e) in
          rw (e, stack_dir_of)
            (record {
              stack = k.stack;
              listed = inr k.listed;
              repo = k.repo;
              name = k.name;
              in_dir = k.in_dir;
            })
    ]
  where
    behind :
        In st (x ∷ sts)
        → str_eq x.repo_name st.repo_name && str_eq x.name st.name ≡ false
        → In st sts
    behind (inl p) e = absurd (
        ground (
          arith,
          str_eq_iff x.repo_name st.repo_name,
          str_eq_iff x.name st.name,
          ap (λ (y : StackState). y.repo_name) p,
          ap (λ (y : StackState). y.name) p,
        ))
    behind (inr i) e = i

module _ (store : Store) (c : IsConsistent store) (repo_name stack_name : Bytes)
    (no_slash : HasNoSlash repo_name)
    (no_slashes : All (λ st. HasNoSlash st.repo_name) (get_all store).stacks) where
  -- A stack of the snapshot is the one that GetStack finds under its names.
  named-get_stack :
      (dir : Bytes)
      → HasDir repo_name stack_name dir (get_all store).stacks
      → dir ≡ dir_of (get_stack repo_name stack_name store)
  named-get_stack dir k =
      let e = (In-get_all_iff c k.stack).0 k.listed in
      let q : get_stack repo_name stack_name store ≡ some k.stack =
        subst (λ n. get_stack repo_name n store ≡ some k.stack) k.name
          (subst (λ r. get_stack r k.stack.name store ≡ some k.stack) k.repo e) in
      sym k.in_dir ∙ sym (ap dir_of q)

  -- The stack that GetStack finds has the names.
  found-HasNames :
      (st : StackState)
      → get_stack repo_name stack_name store ≡ some st
      → In st (get_all store).stacks × (st.repo_name ≡ repo_name) × (st.name ≡ stack_name)
  unfolding get_stack get_all
  found-HasNames st e =
      let key = lookup-Fits FitsStack (stack_key repo_name stack_name) store.stacks c.stacks e in
      let i = In-values_of_lookup FitsStack _ store.stacks st e in
      let (p, q) =
        stack_key_injective repo_name st.repo_name stack_name st.name no_slash
          (All-In (λ s. HasNoSlash s.repo_name) st (values store.stacks) no_slashes i) key in
      (i, sym p, sym q)

  -- The directory that is looked for in the snapshot is that of the stack which GetStack finds.
  pub stack_dir_of-get_stack :
      stack_dir_of repo_name stack_name (get_all store).stacks
      ≡ dir_of (get_stack repo_name stack_name store)
  stack_dir_of-get_stack = elim (Option-cases (get_stack repo_name stack_name store)) [
    | inl n ↦
        elim (Bool-cases (is_empty (stack_dir_of repo_name stack_name (get_all store).stacks))) [
          | inl e ↦ is_empty-eq-true _ e ∙ ap dir_of (sym n)
          | inr e ↦ named-get_stack _ (
              stack_dir_of-HasDir repo_name stack_name (get_all store).stacks
                (is_empty-eq-false _ e))
        ]
    | inr (st, e) ↦
        let (i, r, m) = found-HasNames st e in
        named-get_stack _ (
          subst
            (λ n.
              HasDir repo_name n (stack_dir_of repo_name n (get_all store).stacks)
                (get_all store).stacks)
            m
            (subst
              (λ n.
                HasDir n st.name (stack_dir_of n st.name (get_all store).stacks)
                  (get_all store).stacks)
              r (found-HasDir st (get_all store).stacks i)))
  ]
