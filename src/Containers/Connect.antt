-- ===== src/Containers/Connect.antt =====
-- main.go: the start of refreshContainers, where the client is taken from the holder or made anew.
mod Laws
mod Examples
use stackd.Base.{ℕ, Bool, true, false, Option, none, some, if◌then◌else◌}
use stackd.Docker.Holder.{ClientHolder, get, compare_and_swap}

-- The client that is used, the one that is closed, and the holder behind.
pub record Connected : Type 0 where
  pub client : Option ℕ
  pub closed : Option ℕ
  pub holder : Option ClientHolder

-- Behind docker.New, which gave `c`, for the holder that the exchange meets; `later` is what the other
-- goroutines do with it between a lost exchange and the second Get.
pub publish :
    (c : ℕ) (later : Option ClientHolder → Option ClientHolder) → Option ClientHolder → Connected
publish c later holder =
    let (won, holder') = compare_and_swap none (some c) holder in
    if won
    then record { client = some c; closed = none; holder = holder' }
    else record { client = get (later holder'); closed = some c; holder = later holder' }

-- `created` is what docker.New gives, none for an error; `others 0` and `others 1` are what the other
-- goroutines do with the holder behind its first and its second operation.
unfoldable pub connect :
    (created : Option ℕ) (others : ℕ → Option ClientHolder → Option ClientHolder)
    → Option ClientHolder
    → Connected
unfolding publish
connect created others none = record { client = none; closed = none; holder = none }
connect created others (some h) = elim h.client [
  | some c ↦ record { client = some c; closed = none; holder = others 0 (some h) }
  | none ↦ elim created [
    | none ↦ record { client = none; closed = none; holder = others 0 (some h) }
    | some c ↦ publish c (others 1) (others 0 (some h))
  ]
]
