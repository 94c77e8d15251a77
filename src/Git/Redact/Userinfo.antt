-- ===== src/Git/Redact/Userinfo.antt =====
-- internal/git/git.go: the userinfo of a URL is gone from a redacted text.
use stackd.Base.{
  ℕ, suc, ◌+◌, ◌-◌, ◌≡◌, ◌≢◌, refl, ap, ◌∙◌, false, some, [], ◌∷◌, ◌++◌, arith, All, Bytes, bytes,
  length, has_prefix,
}
use stackd.Git.Redact.{stops, userinfo_len, credential_len, mask, redact_from, redact}
use stackd.Git.Redact.Laws.{redact_from-mask}

-- The bytes of `[^/@\s]`.
abbrev pub IsUserinfo : Bytes → Type 0
IsUserinfo = All (λ c. (c ≢ b'@') × (stops c ≡ false))

userinfo_len-append :
    (u s : Bytes) → IsUserinfo u → userinfo_len (u ++ b'@' ∷ s) ≡ some (suc (length u))
unfolding userinfo_len
userinfo_len-append [] s h = refl
userinfo_len-append (c ∷ u) s ((n, m), h) = ground (arith, userinfo_len-append u s h)

redact_from-skip_all :
    (u s : Bytes) → redact_from (suc (length u)) (u ++ b'@' ∷ s) ≡ redact_from 0 s
unfolding redact_from
redact_from-skip_all [] s = refl
redact_from-skip_all (c ∷ u) s = redact_from-skip_all u s

credential_len-append :
    (u s : Bytes)
    → IsUserinfo u
    → credential_len (bytes "://" ++ (u ++ b'@' ∷ s)) ≡ some (4 + length u)
unfolding credential_len has_prefix
credential_len-append u s h = ground (arith, userinfo_len-append u s h)

redact_from-slashes :
    (n : ℕ) (s : Bytes) → redact_from (suc (suc n)) (b'/' ∷ b'/' ∷ s) ≡ redact_from n s
unfolding redact_from
redact_from-slashes n s = refl

-- Redaction puts the mask in the place of `://`, userinfo and '@', whatever the userinfo, and goes on
-- behind it.
pub redact-userinfo :
    (u s : Bytes) → IsUserinfo u → redact (bytes "://" ++ (u ++ b'@' ∷ s)) ≡ mask ++ redact s
unfolding redact
redact-userinfo u s h =
    let three_more : 4 + length u - 1 ≡ suc (suc (suc (length u))) = omega arith in
    redact_from-mask b':' (b'/' ∷ b'/' ∷ (u ++ b'@' ∷ s)) (4 + length u)
      (credential_len-append u s h)
    ∙ ap (λ n. mask ++ redact_from n (b'/' ∷ b'/' ∷ (u ++ b'@' ∷ s))) three_more
    ∙ ap (λ t. mask ++ t)
        (redact_from-slashes (suc (length u)) (u ++ b'@' ∷ s) ∙ redact_from-skip_all u s)
