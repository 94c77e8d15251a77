-- ===== src/Base/Maps.antt =====
-- Go's maps with string keys, as association lists with at most one entry for a key.
-- Iteration order is not specified in Go; here it is the order of the list.
use mathlib.Core.Path.{◌≡◌, refl, ap, subst}
use mathlib.Core.Logic.{inl, inr}
use mathlib.Core.Bool.{false}
use mathlib.Core.List.{List, [], ◌∷◌, map}
use mathlib.Core.Option.{Option, none, some}
use native.Mathlib.Omega.{arith}
use stackd.Base.Tests.{if◌then◌else◌, Bool-cases}
use stackd.Base.Lists.{In}
use stackd.Base.Text.{Bytes, str_eq, str_eq_iff, str_eq_refl}

abbrev pub Assoc {ℓ} : Type ℓ → Type ℓ
Assoc V = List (Bytes × V)

module _ {ℓ} {V : Type ℓ} where
  -- v, ok := m[k]
  unfoldable pub lookup : Bytes → Assoc V → Option V
  unfolding str_eq
  lookup k [] = none
  lookup k ((j, v) ∷ m) = if str_eq j k then some v else lookup k m

  -- m[k] = v
  unfoldable pub insert : Bytes → V → Assoc V → Assoc V
  unfolding str_eq
  insert k v [] = (k, v) ∷ []
  insert k v ((j, w) ∷ m) = if str_eq j k then (k, v) ∷ m else (j, w) ∷ insert k v m

  -- delete(m, k)
  unfoldable pub delete : Bytes → Assoc V → Assoc V
  unfolding str_eq
  delete k [] = []
  delete k ((j, w) ∷ m) = let rest = delete k m in if str_eq j k then rest else (j, w) ∷ rest

  abbrev pub values : Assoc V → List V
  values = map (λ e. e.1)

module _ {ℓ} {V : Type ℓ} where
  pub lookup-insert :
      (k j : Bytes) (v : V) (m : Assoc V)
      → lookup j (insert k v m) ≡ (if str_eq k j then some v else lookup j m)
  unfolding lookup insert
  lookup-insert k j v [] = refl
  lookup-insert k j v ((i, w) ∷ m) =
      ground (arith, str_eq_iff k j, str_eq_iff i k, str_eq_iff i j, lookup-insert k j v m)

  pub lookup-delete :
      (k j : Bytes) (m : Assoc V)
      → lookup j (delete k m) ≡ (if str_eq k j then none else lookup j m)
  unfolding lookup delete
  lookup-delete k j [] = ground arith
  lookup-delete k j ((i, w) ∷ m) =
      ground (arith, str_eq_iff k j, str_eq_iff i k, str_eq_iff i j, lookup-delete k j m)

  pub lookup-insert_self : (k : Bytes) (v : V) (m : Assoc V) → lookup k (insert k v m) ≡ some v
  lookup-insert_self k v m = rw (lookup-insert, str_eq_refl)

-- A map with one entry for a key, each of which fits its key.
module _ {V : Type 0} (Fits : Bytes → V → Type 0) where
  abbrev pub IsMap : Assoc V → Type 0
  IsMap [] = Unit
  IsMap ((k, v) ∷ m) = (lookup k m ≡ none) × Fits k v × IsMap m

  lookup-insert_ne :
      (k j : Bytes) (v : V) (m : Assoc V)
      → lookup j m ≡ none
      → str_eq k j ≡ false
      → lookup j (insert k v m) ≡ none
  lookup-insert_ne k j v m h e = rw (lookup-insert, e) h

  pub insert-IsMap : (k : Bytes) (v : V) (m : Assoc V) → Fits k v → IsMap m → IsMap (insert k v m)
  unfolding insert lookup
  insert-IsMap k v [] f h = (refl, f, tt)
  insert-IsMap k v ((j, w) ∷ m) f (n, g, h) = elim (Bool-cases (str_eq j k)) [
    | inl e ↦ rw e (rw ((str_eq_iff j k).0 e) at n, f, h)
    | inr e ↦ rw e (
      lookup-insert_ne k j v m n (ground (arith, str_eq_iff j k, str_eq_iff k j)),
      g,
      insert-IsMap k v m f h,
    )
  ]

  pub lookup-delete-none :
      (k j : Bytes) (m : Assoc V) → lookup j m ≡ none → lookup j (delete k m) ≡ none
  lookup-delete-none k j m h = rw lookup-delete (ground arith)

  pub delete-IsMap : (k : Bytes) (m : Assoc V) → IsMap m → IsMap (delete k m)
  unfolding delete
  delete-IsMap k [] h = tt
  delete-IsMap k ((j, w) ∷ m) (n, g, h) =
      ground (arith, lookup-delete-none k j m n, delete-IsMap k m h)

  pub lookup-Fits : (k : Bytes) (m : Assoc V) {v : V} → IsMap m → lookup k m ≡ some v → Fits k v
  unfolding lookup
  lookup-Fits k [] h e = ground arith
  lookup-Fits k ((j, w) ∷ m) {v} (n, g, h) e = elim (Bool-cases (str_eq j k)) [
    | inl p ↦ let q : w ≡ v = ground arith in subst (Fits k) q (rw ((str_eq_iff j k).0 p) at g)
    | inr p ↦ lookup-Fits k m h (ground arith)
  ]

  -- A value of a map stands under a key that it fits, and is what the key is mapped to.
  pub In-values :
      (m : Assoc V) (v : V)
      → IsMap m
      → In v (values m)
      → (k : Bytes) × Fits k v × (lookup k m ≡ some v)
  unfolding lookup
  In-values [] v h i = absurd i
  In-values ((j, w) ∷ m) v (n, g, h) (inl e) = (j, subst (Fits j) e g, rw str_eq_refl (ap some e))
  In-values ((j, w) ∷ m) v (n, g, h) (inr i) =
      let (k, f, p) = In-values m v h i in (k, f, ground (arith, str_eq_iff j k))

  pub In-values_of_lookup :
      (k : Bytes) (m : Assoc V) (v : V) → lookup k m ≡ some v → In v (values m)
  unfolding lookup
  In-values_of_lookup k [] v e = ground arith
  In-values_of_lookup k ((j, w) ∷ m) v e = elim (Bool-cases (str_eq j k)) [
    | inl p ↦ inl (ground arith)
    | inr p ↦ inr (In-values_of_lookup k m v (ground arith))
  ]
