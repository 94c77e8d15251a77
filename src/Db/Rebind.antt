-- ===== src/Db/Rebind.antt =====
-- internal/db/db.go: Rebind, which numbers the placeholders of a query for Postgres.
pub mod Laws
mod Examples
use stackd.Base.{
  ℕ, zero, suc, ◌+◌, ◌/◌, ◌%◌, ◌==◌, ltb, Bool, true, false, List, [], ◌∷◌, ◌++◌, if◌then◌else◌,
  Bytes, bytes, decimal,
}

-- driverName
pub data Driver : Type 0 where
  unset sqlite postgres : Driver

-- The loop of Rebind, with the number of the next placeholder.
pub number_from : ℕ → Bytes → Bytes
number_from n [] = []
number_from n (c ∷ query) =
    let rest = number_from (n + 1) query in
    let same = number_from n query in
    if c == b'?' then bytes "$" ++ (decimal n ++ rest) else c ∷ same

-- Rebind
unfoldable pub rebind : Driver → Bytes → Bytes
unfolding number_from
rebind postgres query = number_from 1 query
rebind sqlite query = query
rebind unset query = query
