-- ===== src/Docker/Holder.antt =====
-- internal/docker/holder.go: the holder of the client, of which every operation is atomic. A client is
-- its address.
use stackd.Base.{ℕ, ◌==◌, Bool, true, false, Option, none, some, if◌then◌else◌}

-- A *ClientHolder that is not nil; `none` is the nil client.
pub record ClientHolder : Type 0 where
  pub client : Option ℕ

-- NewHolder
abbrev pub new_holder : Option ℕ → ClientHolder
new_holder c = record { client = c }

-- Get, of a holder that may be nil.
unfoldable pub get : Option ClientHolder → Option ℕ
get none = none
get (some h) = h.client

-- Set
unfoldable pub set : Option ℕ → Option ClientHolder → Option ClientHolder
set c none = none
set c (some h) = some (record { client = c })

-- old == new, of pointers.
abbrev same : Option ℕ → Option ℕ → Bool
same none none = true
same (some a) (some b) = a == b
same _ _ = false

-- CompareAndSwap
unfoldable pub compare_and_swap :
    (old new : Option ℕ) → Option ClientHolder → Bool × Option ClientHolder
compare_and_swap old new none = (false, none)
compare_and_swap old new (some h) =
    if same h.client old then (true, some (record { client = new })) else (false, some h)
