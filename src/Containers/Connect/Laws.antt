-- ===== src/Containers/Connect/Laws.antt =====
-- main.go: no client is leaked by a reconnection, however it is interleaved.
use stackd.Base.{ℕ, ◌≡◌, ◌≢◌, ◌⊎◌, arith, inl, inr, refl, Option-cases, Option, none, some}
use stackd.Docker.Holder.{ClientHolder, get, compare_and_swap}
use stackd.Containers.Connect.{Connected, publish, connect}

-- What becomes of a new client `c`, where the exchange met `holder` and the others did `later` behind
-- it.
pub data IsPublished (c : ℕ) (later : Option ClientHolder → Option ClientHolder)
    (holder : Option ClientHolder) (r : Connected) : Type 0 where
  won :
      get holder ≡ none
      → r.client ≡ some c
      → get r.holder ≡ some c
      → r.closed ≡ none
      → IsPublished c later holder r
  lost :
      get holder ≢ none ⊎ (holder ≡ none)
      → r.client ≡ get (later holder)
      → r.holder ≡ later holder
      → r.closed ≡ some c
      → IsPublished c later holder r

publish-IsPublished :
    (c : ℕ) (later : Option ClientHolder → Option ClientHolder) (holder : Option ClientHolder)
    → IsPublished c later holder (publish c later holder)
unfolding publish compare_and_swap get
publish-IsPublished c later none = lost (inr refl) refl refl refl
publish-IsPublished c later (some h) = elim (Option-cases h.client) [
  | inl e ↦ rw e (won refl refl refl refl)
  | inr (d, e) ↦ rw e (lost (inl (λ q. ground arith)) refl refl refl)
]

-- A client that a reconnection makes is never leaked, whatever the other goroutines do meanwhile with
-- the holder: either the holder had no client and has the new one, which is used and stays open, or
-- the exchange met another client and changed nothing: the new one is closed, and the client that the
-- holder has then is used.
pub connect-IsPublished :
    (c : ℕ) (others : ℕ → Option ClientHolder → Option ClientHolder)
    → IsPublished c
        (others 1)
        (others 0 (some (record { client = none })))
        (connect (some c) others (some (record { client = none })))
unfolding connect
connect-IsPublished c others =
    publish-IsPublished c (others 1) (others 0 (some (record { client = none })))
