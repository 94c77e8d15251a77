-- ===== src/State/Store/Laws.antt =====
-- internal/state/state.go: what a reader of the store sees after each update.
use stackd.Base.{
  IsMap, insert-IsMap, lookup-Fits, In-values, In-values_of_lookup, ◌↔◌, ◌≡◌, ◌≢◌, inl, inr, refl,
  ap, Option, none, some, List, ◌∷◌, ◌++◌, if◌then◌else◌, arith, Bytes, All, In, cut_byte,
  cut_byte-append, lookup, insert, lookup-insert, str_eq, str_eq_iff, Option-cases, ◌&&◌,
}
use stackd.State.{RepoState, StackState, ContainerDetail}
use stackd.State.Store.{
  Store, new, stack_key, update_repo, get_repo, update_stack, get_stack, update_stack_containers,
  get_all,
}

-- UpdateRepo replaces the state of its repository and of no other, and touches no stack.
pub get_repo-update_repo :
    (r : RepoState) (name : Bytes) (s : Store)
    → get_repo name (update_repo r s) ≡ (if str_eq r.name name then some r else get_repo name s)
unfolding get_repo update_repo
get_repo-update_repo r name s = rw lookup-insert

pub get_stack-update_repo :
    (r : RepoState) (repo name : Bytes) (s : Store)
    → get_stack repo name (update_repo r s) ≡ get_stack repo name s
unfolding get_stack update_repo
get_stack-update_repo r repo name s = refl

pub get_repo-update_stack :
    (st : StackState) (name : Bytes) (s : Store)
    → get_repo name (update_stack st s) ≡ get_repo name s
unfolding get_repo update_stack
get_repo-update_stack st name s = refl

abbrev pub HasNoSlash : Bytes → Type 0
HasNoSlash = All (λ c. c ≢ b'/')

-- Repository names hold no '/', so a stack's key stands for one repository and one name.
pub stack_key_injective :
    (r r' n n' : Bytes)
    → HasNoSlash r
    → HasNoSlash r'
    → stack_key r n ≡ stack_key r' n'
    → (r ≡ r') × (n ≡ n')
stack_key_injective r r' n n' h h' e =
    let p : cut_byte b'/' (r ++ b'/' ∷ n) ≡ cut_byte b'/' (r' ++ b'/' ∷ n') =
      ap (cut_byte b'/') e in
    ground (arith, cut_byte-append b'/' r n h, cut_byte-append b'/' r' n' h')

-- The test on keys is the test on both names.
pub stack_key-eq :
    (r r' n n' : Bytes)
    → HasNoSlash r
    → HasNoSlash r'
    → str_eq (stack_key r n) (stack_key r' n') ≡ (str_eq r r' && str_eq n n')
stack_key-eq r r' n n' h h' = ground (
  arith,
  str_eq_iff (stack_key r n) (stack_key r' n'),
  str_eq_iff r r',
  str_eq_iff n n',
  stack_key_injective r r' n n' h h',
  λ (p : r ≡ r') (q : n ≡ n'). key_cong r r' n n' p q,
)
  where
    key_cong : (r r' n n' : Bytes) → r ≡ r' → n ≡ n' → stack_key r n ≡ stack_key r' n'
    key_cong r r' n n' p q = cc

module _ (st : StackState) (repo name : Bytes) (s : Store) where
  -- UpdateStack replaces the state of its stack and of no other, for repository names without '/'.
  pub get_stack-update_stack :
      HasNoSlash st.repo_name
      → HasNoSlash repo
      → get_stack repo name (update_stack st s) ≡ (
          if str_eq st.repo_name repo && str_eq st.name name
          then some st
          else get_stack repo name s)
  unfolding get_stack update_stack
  get_stack-update_stack h k =
      rw lookup-insert (rw (stack_key-eq st.repo_name repo st.name name h k))

abbrev pub with_containers : List ContainerDetail → Option StackState → Option StackState
with_containers cs none = none
with_containers cs (some st) = some (record st { containers = cs })

-- UpdateStackContainers replaces the containers of its stack, where the store knows it, and changes
-- nothing else of it and no other stack.
pub get_stack-update_stack_containers :
    (r n repo name : Bytes) (cs : List ContainerDetail) (s : Store)
    → HasNoSlash r
    → HasNoSlash repo
    → get_stack repo name (update_stack_containers r n cs s) ≡ (
        if str_eq r repo && str_eq n name
        then with_containers cs (get_stack repo name s)
        else get_stack repo name s)
unfolding get_stack update_stack_containers
get_stack-update_stack_containers r n repo name cs s h k =
    elim (Option-cases (lookup (stack_key r n) s.stacks)) [
      | inl e ↦
          rw (← stack_key-eq r repo n name h k)
            (ground (arith, str_eq_iff (stack_key r n) (stack_key repo name)))
      | inr (st, e) ↦ rw (← stack_key-eq r repo n name h k) (
          ground (
            arith,
            str_eq_iff (stack_key r n) (stack_key repo name),
            lookup-insert (stack_key r n) (stack_key repo name) (record st { containers = cs })
                s.stacks,
          ))
    ]

-- A stack stands under the key of its names, a repository under its name, one entry for each.
abbrev pub FitsStack : Bytes → StackState → Type 0
FitsStack k st = k ≡ stack_key st.repo_name st.name

abbrev pub FitsRepo : Bytes → RepoState → Type 0
FitsRepo k r = k ≡ r.name

pub record IsConsistent (s : Store) : Type 0 where
  pub repos : IsMap FitsRepo s.repos
  pub stacks : IsMap FitsStack s.stacks

pub new-IsConsistent : IsConsistent new
unfolding new
new-IsConsistent = record { repos = tt; stacks = tt }

module _ {s : Store} (h : IsConsistent s) where
  pub update_repo-IsConsistent : (r : RepoState) → IsConsistent (update_repo r s)
  unfolding update_repo
  update_repo-IsConsistent r = record {
    repos = insert-IsMap FitsRepo r.name r s.repos refl h.repos;
    stacks = h.stacks;
  }

  pub update_stack-IsConsistent : (st : StackState) → IsConsistent (update_stack st s)
  unfolding update_stack
  update_stack-IsConsistent st = record {
    repos = h.repos;
    stacks = insert-IsMap FitsStack (stack_key st.repo_name st.name) st s.stacks refl h.stacks;
  }

  containers-IsMap :
      (k : Bytes) (cs : List ContainerDetail) (st : StackState)
      → lookup k s.stacks ≡ some st
      → IsMap FitsStack (insert k (record st { containers = cs }) s.stacks)
  containers-IsMap k cs st e =
      insert-IsMap FitsStack k (record st { containers = cs }) s.stacks
        (lookup-Fits FitsStack k s.stacks h.stacks e) h.stacks

  pub update_stack_containers-IsConsistent :
      (r n : Bytes) (cs : List ContainerDetail) → IsConsistent (update_stack_containers r n cs s)
  unfolding update_stack_containers
  update_stack_containers-IsConsistent r n cs =
      elim (Option-cases (lookup (stack_key r n) s.stacks)) [
        | inl e ↦ rw (e, update_stack_containers) h
        | inr (st, e) ↦
            rw (e, update_stack_containers)
              (record { repos = h.repos; stacks = containers-IsMap (stack_key r n) cs st e })
      ]

  -- The snapshot of a consistent store lists exactly the stacks that GetStack finds.
  pub In-get_all_iff :
      (st : StackState) → In st (get_all s).stacks ↔ (get_stack st.repo_name st.name s ≡ some st)
  unfolding get_all get_stack
  In-get_all_iff st = (
    λ i. let (k, f, e) = In-values FitsStack s.stacks st h.stacks i in rw (← f) e,
    λ e. In-values_of_lookup FitsStack _ s.stacks st e,
  )
