-- ===== src/Docker/Names.antt =====
-- internal/docker/client.go: the name that Compose gives to the project of a stack's directory.
pub mod Laws
mod Examples
use stackd.Base.{
  ℕ, ◌==◌, ◌||◌, Bool, List, [], ◌∷◌, if◌then◌else◌, keep, Bytes, to_lower, is_lower, is_digit,
  split_byte,
}

-- strings.TrimRight(s, "/")
unfoldable pub trim_right_slashes : Bytes → Bytes
trim_right_slashes [] = []
trim_right_slashes (c ∷ s) = elim (trim_right_slashes s) [
  | [] ↦ if c == b'/' then [] else c ∷ []
  | d ∷ t ↦ c ∷ d ∷ t
]

-- parts[len(parts)-1]; strings.Split never gives an empty slice.
unfoldable pub last_part : List Bytes → Bytes
last_part [] = []
last_part (p ∷ []) = p
last_part (p ∷ q ∷ ps) = last_part (q ∷ ps)

-- The bytes that composeNameStrip leaves.
abbrev pub is_project_byte : ℕ → Bool
is_project_byte c = is_lower c || is_digit c || c == b'_' || c == b'-'

-- composeProjectName
unfoldable pub compose_project_name : Bytes → Bytes
unfolding split_byte
compose_project_name stack_dir =
    keep is_project_byte (to_lower (last_part (split_byte b'/' (trim_right_slashes stack_dir))))
