-- ===== src/Server/Limiter/Laws.antt =====
-- internal/server/server.go: the requests that a rate limiter lets through.
use stackd.Base.{
  ◌≡◌, inl, inr, refl, Bool-cases, true, false, Option, none, some, List, [], ◌∷◌, if◌then◌else◌,
  arith, Bytes, ℤ, ◌+ℤ◌, ◌≤ℤ◌, lookup, lookup-insert, str_eq, str_eq_iff, ◌&&◌,
}
use stackd.Server.Limiter.{RateLimiter, new_rate_limiter, too_soon, allow}

-- The limiter after requests by key and time, the latest at the head.
abbrev pub after : ℤ → List (Bytes × ℤ) → RateLimiter
after window [] = new_rate_limiter window
after window ((k, t) ∷ calls) = (allow k t (after window calls)).1

-- The times at which requests of a key were let through, the latest at the head.
unfoldable pub accepted : ℤ → Bytes → List (Bytes × ℤ) → List ℤ
accepted window j [] = []
accepted window j ((k, t) ∷ calls) =
    let earlier = accepted window j calls in
    if str_eq k j && (allow k t (after window calls)).0 then t ∷ earlier else earlier

-- Each time is at least a window behind the one before it.
abbrev pub IsSpaced : ℤ → List ℤ → Type 0
IsSpaced window [] = Unit
IsSpaced window (t ∷ []) = Unit
IsSpaced window (t ∷ s ∷ ts) = (s +ℤ window ≤ℤ t) × IsSpaced window (s ∷ ts)

abbrev latest : List ℤ → Option ℤ
latest [] = none
latest (t ∷ ts) = some t

window-after : (window : ℤ) (calls : List (Bytes × ℤ)) → (after window calls).window ≡ window
unfolding allow
window-after window [] = refl
window-after window ((k, t) ∷ calls) = ground (arith, window-after window calls)

-- What the limiter remembers of a key is the time of the last request that it let through.
lookup-after :
    (window : ℤ) (j : Bytes) (calls : List (Bytes × ℤ))
    → lookup j (after window calls).last_time ≡ latest (accepted window j calls)
unfolding allow accepted lookup
lookup-after window j [] = refl
lookup-after window j ((k, t) ∷ calls) = ground (
  arith,
  lookup-after window j calls,
  lookup-insert k j t (after window calls).last_time,
  str_eq_iff k j,
)

allow-spaced : (window t s : ℤ) → too_soon window t (some s) ≡ false → s +ℤ window ≤ℤ t
allow-spaced window t s h = ground arith

IsSpaced-cons :
    (window t : ℤ) (ts : List ℤ)
    → too_soon window t (latest ts) ≡ false
    → IsSpaced window ts
    → IsSpaced window (t ∷ ts)
IsSpaced-cons window t [] h k = tt
IsSpaced-cons window t (s ∷ ts) h k = (allow-spaced window t s h, k)

allow-eq :
    (j : Bytes) (t : ℤ) (rl : RateLimiter)
    → (allow j t rl).0 ≡ true
    → too_soon rl.window t (lookup j rl.last_time) ≡ false
unfolding allow
allow-eq j t rl h = ground arith

-- Whatever the requests, those of one key that are let through are at least a window apart.
pub accepted-IsSpaced :
    (window : ℤ) (j : Bytes) (calls : List (Bytes × ℤ)) → IsSpaced window (accepted window j calls)
unfolding accepted
accepted-IsSpaced window j [] = tt
accepted-IsSpaced window j ((k, t) ∷ calls) =
    elim (Bool-cases (str_eq k j && (allow k t (after window calls)).0)) [
      | inr e ↦ rw (e, accepted) (accepted-IsSpaced window j calls)
      | inl e ↦
          rw (e, accepted)
            (IsSpaced-cons window t _ (spaced k t calls (ground arith) (ground arith))
              (accepted-IsSpaced window j calls))
    ]
  where
    spaced :
        (k : Bytes) (t : ℤ) (calls : List (Bytes × ℤ))
        → str_eq k j ≡ true
        → (allow k t (after window calls)).0 ≡ true
        → too_soon window t (latest (accepted window j calls)) ≡ false
    spaced k t calls e a =
        let g = rw ((str_eq_iff k j).0 e) at (allow-eq k t (after window calls) a) in
        rw (window-after window calls, lookup-after window j calls) at g
