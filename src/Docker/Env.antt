-- ===== src/Docker/Env.antt =====
-- internal/docker/client.go: maskEnvVars, with its regular expression written out.
pub mod Laws
mod Examples
use stackd.Base.{
  ℕ, ◌==◌, ◌||◌, ◌&&◌, Bool, true, false, none, some, List, [], ◌∷◌, ◌++◌, if◌then◌else◌, any, map,
  drop, Bytes, bytes, is_upper, is_lower, is_alnum, is_re_space, has_prefix, contains, cut_byte,
  to_upper,
}

-- sensitiveEnvKeys
abbrev pub sensitive_env_keys : List Bytes
sensitive_env_keys =
    bytes "TOKEN"
    ∷ bytes "SECRET"
    ∷ bytes "KEY"
    ∷ bytes "PASSWORD"
    ∷ bytes "PASS"
    ∷ bytes "CREDENTIAL"
    ∷ bytes "DATABASE_URL"
    ∷ bytes "DB_URL"
    ∷ bytes "DSN"
    ∷ bytes "REDIS_URL"
    ∷ []

-- `[a-zA-Z]`, `[a-zA-Z0-9+.\-]` and `[\s/@]`
abbrev pub is_letter : ℕ → Bool
is_letter c = is_upper c || is_lower c

abbrev pub is_scheme_byte : ℕ → Bool
is_scheme_byte c = is_alnum c || c == b'+' || c == b'.' || c == b'-'

abbrev pub ends_userinfo : ℕ → Bool
ends_userinfo c = is_re_space c || c == b'/' || c == b'@'

-- `[^\s/@]+:[^\s/@]*@` at the start of a text, behind bytes of it: `some_user` says whether there is
-- one, `some_colon` whether one of them is a colon with a byte before it.
unfoldable pub userinfo_at : (some_user some_colon : Bool) → Bytes → Bool
userinfo_at some_user some_colon [] = false
userinfo_at some_user some_colon (c ∷ s) =
    let rest = userinfo_at true (some_colon || some_user && c == b':') s in
    if ends_userinfo c then some_colon && c == b'@' else rest

-- `[a-zA-Z0-9+.\-]*://` and the userinfo at the start of a text.
unfoldable pub scheme_at : Bytes → Bool
unfolding userinfo_at
scheme_at [] = false
scheme_at (c ∷ s) =
    has_prefix (bytes "://") (c ∷ s) && userinfo_at false false (drop 3 (c ∷ s))
    || is_scheme_byte c && scheme_at s

-- userinfoURLRe.MatchString
unfoldable pub has_userinfo_url : Bytes → Bool
unfolding scheme_at
has_userinfo_url [] = false
has_userinfo_url (c ∷ s) = is_letter c && scheme_at s || has_userinfo_url s

-- The loop over sensitiveEnvKeys
abbrev pub is_sensitive_env : Bytes → Bool
is_sensitive_env key = any (λ s. contains s (to_upper key)) sensitive_env_keys

abbrev pub redacted : Bytes → Bytes
redacted key = key ++ bytes "=[redacted]"

-- The body of the loop of maskEnvVars.
unfoldable pub mask_env_var : Bytes → Bytes
unfolding cut_byte has_userinfo_url
mask_env_var e = elim (cut_byte b'=' e) [
  | none ↦ e
  | some (key, val) ↦ if is_sensitive_env key || has_userinfo_url val then redacted key else e
]

-- maskEnvVars
unfoldable pub mask_env_vars : List Bytes → List Bytes
unfolding mask_env_var
mask_env_vars = map mask_env_var
