-- ===== src/Containers/Laws.antt =====
-- main.go: what refreshContainers makes of the stacks and of the gauges.
use stackd.Base.{
  ℕ, ◌≡◌, ◌&&◌, Bool, inl, inr, refl, ap, subst, ◌∙◌, Bool-cases, true, false, Option, none, some,
  List, [], ◌∷◌, arith, All, Bytes, bytes, length, keep, suc, is_empty, str_eq, str_eq_iff, Assoc,
  lookup, values, if◌then◌else◌, IsMap,
}
use stackd.Process.{Cmd}
use stackd.State.{ContainerDetail, StackState}
use stackd.State.Store.{stack_key, get_stack, get_all_stacks}
use stackd.State.Store.Laws.{HasNoSlash, stack_key-eq, FitsStack, IsConsistent}
use stackd.Stacks.Apply.{World}
use stackd.Containers.Effect.{gauge, last_of, given_to, counted, refresh_stacks-Gets}
use stackd.Containers.{running, containers_in, refresh_with}

abbrev pub is_running : ContainerDetail → Bool
is_running c = str_eq c.status (bytes "running")

-- The loop counts the running containers.
running-keep : (cs : List ContainerDetail) → running cs ≡ length (keep is_running cs)
running-keep [] = refl
running-keep (c ∷ cs) = elim (Bool-cases (is_running c)) [
  | inl e ↦ rw e (ap suc (running-keep cs))
  | inr e ↦ rw e (running-keep cs)
]

module _ (list_containers : List Cmd → Bytes → Option (List ContainerDetail)) (repo name : Bytes)
    (no_slash : HasNoSlash repo) where
  -- A map has one stack of the names: the last of its stacks is the one under their key.
  expected : List Cmd → Option StackState → Option (List ContainerDetail)
  expected trace none = none
  expected trace (some st) =
      if is_empty st.stack_dir
      then none
      else some (containers_in list_containers trace st.stack_dir)

  last_of-values :
      (trace : List Cmd) (m : Assoc StackState)
      → IsMap FitsStack m
      → All (λ st. HasNoSlash st.repo_name) (values m)
      → last_of list_containers repo name no_slash trace (values m)
        ≡ expected trace (lookup (stack_key repo name) m)
  unfolding lookup expected
  last_of-values trace [] h k = refl
  last_of-values trace ((j, st) ∷ m) (n, f, h) (l, k) =
      let ih = last_of-values trace m h k in
      let eq = stack_key-eq st.repo_name repo st.name name l no_slash in
      elim (Bool-cases (str_eq st.repo_name repo && str_eq st.name name)) [
        | inl e ↦
            let q : str_eq j (stack_key repo name) ≡ true = rw f (eq ∙ e) in
            let z : lookup (stack_key repo name) m ≡ none =
              subst (λ i. lookup i m ≡ none) ((str_eq_iff j (stack_key repo name)).0 q) n in
            rw (ih ∙ ap (expected trace) z, q, e) (ground arith)
        | inr e ↦
            let q : str_eq j (stack_key repo name) ≡ false = rw f (eq ∙ e) in
            rw (ih, q, e) (ground arith)
      ]

  -- The stack behind the refresh: with the containers of its directory, where that is known.
  abbrev pub refreshed : List Cmd → Option StackState → Option StackState
  refreshed trace none = none
  refreshed trace (some st) =
      if is_empty st.stack_dir
      then some st
      else some (record st { containers = containers_in list_containers trace st.stack_dir })

  -- The gauge behind the refresh, which counts the running containers of those.
  abbrev pub regauged : List Cmd → Option StackState → Option ℕ → Option ℕ
  regauged trace none g = g
  regauged trace (some st) g =
      if is_empty st.stack_dir
      then g
      else some (length (keep is_running (containers_in list_containers trace st.stack_dir)))

  pub record IsRefreshed (w v : World) : Type 0 where
    pub stack : get_stack repo name v.store ≡ refreshed w.trace (get_stack repo name w.store)
    pub number :
        gauge repo name v ≡ regauged w.trace (get_stack repo name w.store) (gauge repo name w)

  given_to-expected :
      (trace : List Cmd) (st : Option StackState)
      → given_to (expected trace st) st ≡ refreshed trace st
  unfolding expected
  given_to-expected trace none = refl
  given_to-expected trace (some st) = ground arith

  counted-expected :
      (trace : List Cmd) (st : Option StackState) (g : Option ℕ)
      → counted (expected trace st) g ≡ regauged trace st g
  unfolding expected
  counted-expected trace none g = refl
  counted-expected trace (some st) g =
      let e = running-keep (containers_in list_containers trace st.stack_dir) in
      elim (Bool-cases (is_empty st.stack_dir)) [ inl f ↦ rw f refl | inr f ↦ rw f (ap some e) ]

  -- Where there is a client and the store is consistent, with no '/' in the names of repositories, a
  -- refresh leaves each stack as it was but for the containers, which are those of its directory or,
  -- where the list fails, none; its gauge is the number of the running ones. A stack without a
  -- directory keeps its containers and its gauge.
  pub refresh_with-IsRefreshed :
      (client : ℕ) (w : World)
      → IsConsistent w.store
      → All (λ st. HasNoSlash st.repo_name) (get_all_stacks w.store)
      → IsRefreshed w (refresh_with list_containers (some client) w)
  unfolding refresh_with get_stack get_all_stacks
  refresh_with-IsRefreshed client w h k =
      let g = refresh_stacks-Gets list_containers repo name no_slash (get_all_stacks w.store) w k in
      let e = last_of-values w.trace w.store.stacks h.stacks k in
      record {
        stack =
            g.stack
            ∙ ap (λ r. given_to r (get_stack repo name w.store)) e
            ∙ given_to-expected w.trace (get_stack repo name w.store);
        number =
            g.number
            ∙ ap (λ r. counted r (gauge repo name w)) e
            ∙ counted-expected w.trace (get_stack repo name w.store) (gauge repo name w);
      }
