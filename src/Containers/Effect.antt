-- ===== src/Containers/Effect.antt =====
-- main.go: what the loop of refreshContainers does to a stack and to its gauge.
use stackd.Base.{
  ℕ, ◌≡◌, ◌&&◌, not, Bool, inl, inr, refl, ap, ◌∙◌, Bool-cases, Option, none, some, List, [], ◌∷◌,
  All, Bytes, is_empty, str_eq, lookup, if◌then◌else◌, lookup-insert,
}
use stackd.Process.{Cmd}
use stackd.State.{ContainerDetail, StackState}
use stackd.State.Store.{stack_key, get_stack}
use stackd.State.Store.Laws.{
  HasNoSlash, with_containers, get_stack-update_stack_containers, stack_key-eq,
}
use stackd.Metrics.{set_containers_running}
use stackd.Stacks.Apply.{World}
use stackd.Containers.{running, containers_in, refresh_stack, refresh_stacks}

-- Whether a stack is the named one and its directory is known.
abbrev pub is_stack : (repo name : Bytes) → StackState → Bool
is_stack repo name st =
    not (is_empty st.stack_dir) && (str_eq st.repo_name repo && str_eq st.name name)

abbrev pub either_of : {A : Type 0} → Option A → Option A → Option A
either_of none d = d
either_of (some a) d = some a

-- The gauge of a stack.
abbrev pub gauge : (repo name : Bytes) → World → Option ℕ
gauge repo name w = lookup (stack_key repo name) w.metrics.containers_running

-- A stack with the containers that it is given, if any.
abbrev pub given_to : Option (List ContainerDetail) → Option StackState → Option StackState
given_to none st = st
given_to (some cs) st = with_containers cs st

-- The gauge where those are counted.
abbrev pub counted : Option (List ContainerDetail) → Option ℕ → Option ℕ
counted none g = g
counted (some cs) g = some (running cs)

module _ (list_containers : List Cmd → Bytes → Option (List ContainerDetail)) (repo name : Bytes)
    (no_slash : HasNoSlash repo) where
  -- The containers that the refresh of some stacks gives to the named one: those of the last.
  abbrev pub last_of : List Cmd → List StackState → Option (List ContainerDetail)
  last_of trace [] = none
  last_of trace (st ∷ sts) = either_of (last_of trace sts) (
      if is_stack repo name st
      then some (containers_in list_containers trace st.stack_dir)
      else none)

  pub record Gets (r : Option (List ContainerDetail)) (w v : World) : Type 0 where
    pub stack : get_stack repo name v.store ≡ given_to r (get_stack repo name w.store)
    pub number : gauge repo name v ≡ counted r (gauge repo name w)
    pub trace : v.trace ≡ w.trace

  refresh_stack-Gets :
      (st : StackState) (w : World)
      → HasNoSlash st.repo_name
      → Gets
          (if is_stack repo name st
            then some (containers_in list_containers w.trace st.stack_dir)
            else none)
          w
          (refresh_stack list_containers st w)
  unfolding refresh_stack set_containers_running
  refresh_stack-Gets st w h =
      let cs = containers_in list_containers w.trace st.stack_dir in
      let upd =
        get_stack-update_stack_containers st.repo_name st.name repo name cs w.store h no_slash in
      let num =
        lookup-insert (stack_key st.repo_name st.name) (stack_key repo name) (running cs)
          w.metrics.containers_running in
      let eq = stack_key-eq st.repo_name repo st.name name h no_slash in
      elim (Bool-cases (is_empty st.stack_dir)) [
        | inl e ↦ rw (e, refresh_stack) (record { stack = refl; number = refl; trace = refl })
        | inr e ↦ elim (Bool-cases (str_eq st.repo_name repo && str_eq st.name name)) [
          | inl k ↦
              rw (e, refresh_stack)
                (rw k
                  (record { stack = rw k at upd; number = rw k at (rw eq at num); trace = refl }))
          | inr k ↦
              rw (e, refresh_stack)
                (rw k
                  (record { stack = rw k at upd; number = rw k at (rw eq at num); trace = refl }))
        ]
      ]

  Gets-trans :
      (a b : Option (List ContainerDetail)) (w v u : World)
      → Gets a w v
      → Gets b v u
      → Gets (either_of b a) w u
  Gets-trans a none w v u g k = record {
    stack = k.stack ∙ g.stack;
    number = k.number ∙ g.number;
    trace = k.trace ∙ g.trace;
  }
  Gets-trans none (some cs) w v u g k = record {
    stack = k.stack ∙ ap (with_containers cs) g.stack;
    number = k.number;
    trace = k.trace ∙ g.trace;
  }
  Gets-trans (some ds) (some cs) w v u g k = record {
    stack =
        k.stack
        ∙ ap (with_containers cs) g.stack
        ∙ with_containers_twice (get_stack repo name w.store);
    number = k.number;
    trace = k.trace ∙ g.trace;
  }
    where
      with_containers_twice :
          (st : Option StackState)
          → with_containers cs (with_containers ds st) ≡ with_containers cs st
      with_containers_twice none = refl
      with_containers_twice (some st) = refl

  pub refresh_stacks-Gets :
      (sts : List StackState) (w : World)
      → All (λ st. HasNoSlash st.repo_name) sts
      → Gets (last_of w.trace sts) w (refresh_stacks list_containers sts w)
  unfolding refresh_stacks
  refresh_stacks-Gets [] w h = record { stack = refl; number = refl; trace = refl }
  refresh_stacks-Gets (st ∷ sts) w (n, h) =
      let g = refresh_stack-Gets st w n in
      let k = refresh_stacks-Gets sts (refresh_stack list_containers st w) h in
      Gets-trans _ _ w _ _ g (rw g.trace at k)
