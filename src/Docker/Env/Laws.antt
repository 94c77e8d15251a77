-- ===== src/Docker/Env/Laws.antt =====
-- internal/docker/client.go: what the environment of a container shows.
pub mod Urls
use stackd.Base.{
  ◌≡◌, ◌⊎◌, inl, inr, refl, Bool-cases, Option-cases, Bool, true, false, none, some, List, [], ◌∷◌,
  ◌++◌, ◌||◌, arith, All, Bytes, bytes, cut_byte, cut_byte-eq-some, cut_byte-append, sym, ◌∙◌,
  subst,
}
use mathlib.Core.Bool.{false≢true}
use stackd.Docker.Env.Laws.Urls.{HasUserinfoUrl, has_userinfo_url_iff}
use stackd.Docker.Env.{is_sensitive_env, redacted, has_userinfo_url, mask_env_var, mask_env_vars}

-- What an entry `e` of the environment is shown as.
pub data IsMasked (e : Bytes) : Bytes → Type 0 where
  no_value : cut_byte b'=' e ≡ none → IsMasked e e
  secret :
      (key val : Bytes)
      → cut_byte b'=' e ≡ some (key, val)
      → (is_sensitive_env key || has_userinfo_url val) ≡ true
      → IsMasked e (redacted key)
  harmless :
      (key val : Bytes)
      → cut_byte b'=' e ≡ some (key, val)
      → is_sensitive_env key ≡ false
      → has_userinfo_url val ≡ false
      → IsMasked e e

pub mask_env_var-IsMasked : (e : Bytes) → IsMasked e (mask_env_var e)
unfolding mask_env_var
mask_env_var-IsMasked e = elim (Option-cases (cut_byte b'=' e)) [
  | inl n ↦ rw (n, mask_env_var) (no_value n)
  | inr ((key, val), n) ↦ elim (Bool-cases (is_sensitive_env key || has_userinfo_url val)) [
    | inl s ↦ rw (n, mask_env_var) (rw s (secret key val n s))
    | inr s ↦ rw (n, mask_env_var) (rw s (harmless key val n (ground arith) (ground arith)))
  ]
]

-- An entry that may be shown: it has no value, or "[redacted]", or the value of a key without a
-- sensitive word, in which no URL carries a user and a password.
abbrev pub IsHarmless : Bytes → Type 0
IsHarmless shown =
    (key val : Bytes)
    → cut_byte b'=' shown ≡ some (key, val)
    → (val ≡ bytes "[redacted]") ⊎ ((is_sensitive_env key ≡ false) × (HasUserinfoUrl val → ⊥))

redacted-IsHarmless :
    (e key val : Bytes) → cut_byte b'=' e ≡ some (key, val) → IsHarmless (redacted key)
redacted-IsHarmless e key val n key' val' f =
    let (_, a) = cut_byte-eq-some b'=' e n in
    let g : cut_byte b'=' (redacted key) ≡ some (key, bytes "[redacted]") =
      cut_byte-append b'=' key (bytes "[redacted]") a in
    inl (ground (arith, g))

harmless-IsHarmless :
    (e key val : Bytes)
    → cut_byte b'=' e ≡ some (key, val)
    → is_sensitive_env key ≡ false
    → has_userinfo_url val ≡ false
    → IsHarmless e
harmless-IsHarmless e key val n s u key' val' f =
    let k : key ≡ key' = ground arith in
    let v : val ≡ val' = ground arith in
    inr (
      rw k at s,
      λ i. false≢true (sym u ∙ (has_userinfo_url_iff val).1 (subst HasUserinfoUrl (sym v) i)),
    )

mask_env_var-IsHarmless : (e shown : Bytes) → IsMasked e shown → IsHarmless shown
mask_env_var-IsHarmless e _ (no_value n) = λ key val f. ground arith
mask_env_var-IsHarmless e _ (secret key val n s) = redacted-IsHarmless e key val n
mask_env_var-IsHarmless e _ (harmless key val n s u) = harmless-IsHarmless e key val n s u

-- Every entry of a masked environment either has no value, or has "[redacted]" for one, or has a key
-- without a sensitive word and a value in which no URL carries a user that is not empty and a
-- password.
pub mask_env_vars-IsHarmless : (envs : List Bytes) → All IsHarmless (mask_env_vars envs)
unfolding mask_env_vars
mask_env_vars-IsHarmless [] = tt
mask_env_vars-IsHarmless (e ∷ envs) =
    (mask_env_var-IsHarmless e _ (mask_env_var-IsMasked e), mask_env_vars-IsHarmless envs)
