-- ===== src/Git/Redact.antt =====
-- internal/git/git.go: Redact, the replacement of `://[^/@\s]*@` by "://***@".
pub mod Laws
mod Userinfo
mod Examples
use mathlib.Core.Option
use stackd.Base.{
  ℕ, zero, suc, ◌+◌, ◌-◌, ◌==◌, ◌||◌, Bool, Option, none, some, List, [], ◌∷◌, ◌++◌, if◌then◌else◌,
  Bytes, bytes, drop, is_re_space, has_prefix,
}

-- The bytes outside the class `[^/@\s]`, '@' aside.
abbrev pub stops : ℕ → Bool
stops c = c == b'/' || is_re_space c

-- How many bytes `[^/@\s]*@` matches at the head. The class holds no '@', so there is one way.
pub userinfo_len : Bytes → Option ℕ
userinfo_len [] = none
userinfo_len (c ∷ s) =
    let rest = userinfo_len s in
    if c == b'@' then some 1 else if stops c then none else Option.map suc rest

-- How many bytes the whole expression matches at the head.
pub credential_len : Bytes → Option ℕ
credential_len s =
    if has_prefix (bytes "://") s then Option.map (λ n. 3 + n) (userinfo_len (drop 3 s)) else none

abbrev pub mask : Bytes
mask = bytes "://***@"

-- ReplaceAllString from the left; the number counts the bytes of a match that are still to skip.
pub redact_from : ℕ → Bytes → Bytes
redact_from k [] = []
redact_from (suc k) (c ∷ s) = redact_from k s
redact_from zero (c ∷ s) = elim (credential_len (c ∷ s)) [
  | none ↦ c ∷ redact_from zero s
  | some n ↦ mask ++ redact_from (n - 1) s
]

-- Redact
unfoldable pub redact : Bytes → Bytes
unfolding redact_from
redact s = redact_from 0 s
