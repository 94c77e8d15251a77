-- ===== src/Server/Apply/Laws.antt =====
-- internal/server/server.go: at most one apply of a stack runs at a time.
use stackd.Base.{
  ◌≡◌, ◌≢◌, ◌↔◌, inl, inr, refl, Bool, Bool-cases, true, false, none, List, [], ◌∷◌, if◌then◌else◌,
  arith, Bytes, str_eq, str_eq_iff, lookup, insert, lookup-insert, lookup-delete, In, ◌||◌,
}
use stackd.State.Store.{Store, get_stack}
use stackd.Server.Apply.{
  Applies, applying, is_applying, start, handle_apply_stack, without, finish, apply_key,
}

-- A step: a request, with the store that its handler sees, or the end of a goroutine that runs.
pub data Step : Applies → Applies → Type 0 where
  request :
      (configured : Bool) (repo stack : Bytes) (store : Store) (a : Applies)
      → Step a (handle_apply_stack configured repo stack store a).1
  done : (key : Bytes) (a : Applies) → In key a.running → Step a (finish key a)

-- The states that the server may come to.
pub data Reachable : Applies → Type 0 where
  initial : Reachable (record { applying = []; running = [] })
  step : {a b : Applies} → Reachable a → Step a b → Reachable b

-- How often a key runs.
pub runs : Bytes → List Bytes → Bool
runs key [] = false
runs key (k ∷ ks) = str_eq k key || runs key ks

-- No key runs twice.
abbrev pub IsDistinct : List Bytes → Type 0
IsDistinct [] = Unit
IsDistinct (k ∷ ks) = (runs k ks ≡ false) × IsDistinct ks

-- The map holds exactly the keys that run, and none of these runs twice.
pub record IsExclusive (a : Applies) : Type 0 where
  pub marked : (key : Bytes) → is_applying key a ≡ runs key a.running
  pub distinct : IsDistinct a.running

runs-without :
    (key j : Bytes) (ks : List Bytes)
    → IsDistinct ks
    → runs j (without key ks) ≡ (if str_eq key j then false else runs j ks)
unfolding runs without
runs-without key j [] d = ground arith
runs-without key j (k ∷ ks) (n, d) =
    ground (arith, runs-without key j ks d, str_eq_iff k key, str_eq_iff k j, str_eq_iff key j)

IsDistinct-without : (key : Bytes) (ks : List Bytes) → IsDistinct ks → IsDistinct (without key ks)
unfolding without
IsDistinct-without key [] d = tt
IsDistinct-without key (k ∷ ks) (n, d) = elim (Bool-cases (str_eq k key)) [
  | inl e ↦ rw e d
  | inr e ↦ rw e (ground (arith, runs-without key k ks d), IsDistinct-without key ks d)
]

started-marked :
    (key : Bytes) (a : Applies)
    → IsExclusive a
    → (j : Bytes)
    → is_applying j (record { applying = insert key true a.applying; running = key ∷ a.running })
      ≡ runs j (key ∷ a.running)
unfolding runs
started-marked key a h j = ground (arith, lookup-insert key j true a.applying, h.marked j)

start-IsExclusive : (key : Bytes) (a : Applies) → IsExclusive a → IsExclusive (start key a).1
unfolding start
start-IsExclusive key a h = elim (Bool-cases (is_applying key a)) [
  | inl e ↦ rw (e, start) h
  | inr e ↦
      rw (e, start)
        (record {
          marked = started-marked key a h;
          distinct = (ground (arith, h.marked key), h.distinct);
        })
]

finish-IsExclusive : (key : Bytes) (a : Applies) → IsExclusive a → IsExclusive (finish key a)
unfolding finish
finish-IsExclusive key a h = record {
  marked = λ j.
      ground (
        arith,
        lookup-delete key j a.applying,
        runs-without key j a.running h.distinct,
        h.marked j,
      );
  distinct = IsDistinct-without key a.running h.distinct;
}

handle_apply_stack-IsExclusive :
    (configured : Bool) (repo stack : Bytes) (store : Store) (a : Applies)
    → IsExclusive a
    → IsExclusive (handle_apply_stack configured repo stack store a).1
unfolding handle_apply_stack
handle_apply_stack-IsExclusive configured repo stack store a h =
    let started = start-IsExclusive (apply_key repo stack) a h in ground arith

-- In every reachable state the map holds exactly the stacks whose apply runs, and no stack's apply
-- runs twice.
pub Reachable-IsExclusive : (a : Applies) → Reachable a → IsExclusive a
unfolding runs lookup
Reachable-IsExclusive _ initial = record { marked = λ key. refl; distinct = tt }
Reachable-IsExclusive _ (step r (request configured repo stack store a)) =
    handle_apply_stack-IsExclusive configured repo stack store a (Reachable-IsExclusive a r)
Reachable-IsExclusive _ (step r (done key a _)) =
    finish-IsExclusive key a (Reachable-IsExclusive a r)

-- In every reachable state a request starts an apply exactly if both names are given, the store knows
-- the stack, the server has an apply callback and no apply of the stack runs.
pub handle_apply_stack_iff :
    (configured : Bool) (repo stack : Bytes) (store : Store) (a : Applies)
    → Reachable a
    → ((handle_apply_stack configured repo stack store a).0 ≡ applying) ↔ (
        (repo ≢ [])
        × (stack ≢ [])
        × (get_stack repo stack store ≢ none)
        × (configured ≡ true)
        × (runs (apply_key repo stack) a.running ≡ false))
unfolding handle_apply_stack start
handle_apply_stack_iff configured [] stack store a r = (λ e. ground arith, λ h. absurd (h.0 refl))
handle_apply_stack_iff configured (c ∷ repo) [] store a r =
    (λ e. ground arith, λ h. absurd (h.1 refl))
handle_apply_stack_iff configured (c ∷ repo) (d ∷ stack) store a r =
    let m = (Reachable-IsExclusive a r).marked (apply_key (c ∷ repo) (d ∷ stack)) in
    (
      λ e. ((λ q. cc), (λ q. cc), (λ q. ground arith), ground arith, ground arith),
      λ (p, q, known, k, n). ground arith,
    )
