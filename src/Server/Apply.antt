-- ===== src/Server/Apply.antt =====
-- internal/server/server.go: handleApplyStack. The server's `applying` and the goroutines that it has
-- started are the state; a goroutine's end, with its deferred delete, is a step of its own.
mod Laws
mod Examples
use stackd.Base.{
  ◌||◌, Bool, true, false, Option, none, some, List, [], ◌∷◌, ◌++◌, if◌then◌else◌, Bytes, bytes,
  is_empty, str_eq, Assoc, lookup, insert, delete,
}
use stackd.State.Store.{Store, get_stack}

-- `running` has the key of each goroutine that is not done, the latest at the head.
pub record Applies : Type 0 where
  pub applying : Assoc Bool
  pub running : List Bytes

-- The answers with 400, 404, 503, 409 and 200.
pub data Answer : Type 0 where
  missing_name stack_not_found not_configured already_applying applying : Answer

-- repo + "/" + stack
abbrev pub apply_key : Bytes → Bytes → Bytes
apply_key repo stack = repo ++ (bytes "/" ++ stack)

-- applying[key]
abbrev pub is_applying : Bytes → Applies → Bool
is_applying key a = elim (lookup key a.applying) [ none ↦ false | some b ↦ b ]

-- The part under the lock and the start of the goroutine.
pub start : Bytes → Applies → Answer × Applies
start key a =
    if is_applying key a
    then (already_applying, a)
    else (applying, record { applying = insert key true a.applying; running = key ∷ a.running })

-- handleApplyStack; `configured` says whether the server has an apply callback.
unfoldable pub handle_apply_stack :
    (configured : Bool) (repo stack : Bytes) → Store → Applies → Answer × Applies
unfolding start
handle_apply_stack configured repo stack store a =
    if is_empty repo || is_empty stack
    then (missing_name, a)
    else elim (get_stack repo stack store) [
      | none ↦ (stack_not_found, a)
      | some _ ↦ if configured then start (apply_key repo stack) a else (not_configured, a)
    ]

-- The list without the first occurrence of a key.
pub without : Bytes → List Bytes → List Bytes
without key [] = []
without key (k ∷ ks) = let rest = without key ks in if str_eq k key then ks else k ∷ rest

-- The end of a goroutine: its deferred delete.
unfoldable pub finish : Bytes → Applies → Applies
unfolding without
finish key a = record { applying = delete key a.applying; running = without key a.running }
