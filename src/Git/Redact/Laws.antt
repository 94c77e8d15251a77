-- ===== src/Git/Redact/Laws.antt =====
-- internal/git/git.go: no credential is left in a redacted text, and nothing else is changed.
use stackd.Base.{
  ℕ, zero, suc, ◌-◌, ◌≡◌, ◌⊎◌, inl, inr, refl, sym, ap, ◌∙◌, true, none, some, [], ◌∷◌, ◌++◌, arith,
  Bytes, drop, drop-nil, has_prefix, has_prefix-eq-true, Option-cases,
}
use stackd.Git.Redact.{userinfo_len, credential_len, mask, redact_from, redact}

-- At every position either no `://userinfo@` begins, or exactly the mask stands there.
abbrev pub IsRedacted : Bytes → Type 0
IsRedacted [] = Unit
IsRedacted (c ∷ s) =
    ((credential_len (c ∷ s) ≡ none) ⊎ (has_prefix mask (c ∷ s) ≡ true)) × IsRedacted s

module _ (c : ℕ) (s : Bytes) where
  redact_from-keep : credential_len (c ∷ s) ≡ none → redact_from 0 (c ∷ s) ≡ c ∷ redact_from 0 s
  unfolding redact_from
  redact_from-keep e = rw (e, redact_from)

  pub redact_from-mask :
      (n : ℕ)
      → credential_len (c ∷ s) ≡ some n
      → redact_from 0 (c ∷ s) ≡ mask ++ redact_from (n - 1) s
  unfolding redact_from
  redact_from-mask n e = rw (e, redact_from)

redact_from-nil : (k : ℕ) → redact_from k [] ≡ []
unfolding redact_from
redact_from-nil k = refl

redact_from-skip : (k c : ℕ) (s : Bytes) → redact_from (suc k) (c ∷ s) ≡ redact_from k s
unfolding redact_from
redact_from-skip k c s = refl

userinfo_len-mask : (s : Bytes) → userinfo_len (mask ++ s) ≡ none
unfolding userinfo_len
userinfo_len-mask s = refl

userinfo_len-cons :
    (c : ℕ) (s t : Bytes)
    → (userinfo_len s ≡ none → userinfo_len t ≡ none)
    → userinfo_len (c ∷ s) ≡ none
    → userinfo_len (c ∷ t) ≡ none
unfolding userinfo_len
userinfo_len-cons c s t f h = ground arith

userinfo_len-redact_from :
    (s : Bytes) → userinfo_len s ≡ none → userinfo_len (redact_from 0 s) ≡ none
userinfo_len-redact_from [] h = rw redact_from-nil h
userinfo_len-redact_from (c ∷ s) h = elim (Option-cases (credential_len (c ∷ s))) [
  | inl e ↦ rw (redact_from-keep c s e) (userinfo_len-cons c s _ (userinfo_len-redact_from s) h)
  | inr (n, e) ↦ rw (redact_from-mask c s n e) (userinfo_len-mask _)
]

-- What follows `://` in the text holds no userinfo if the redacted text's does not.
credential_len-cons₃ :
    (c d e : ℕ) (s t : Bytes)
    → (userinfo_len s ≡ none → userinfo_len t ≡ none)
    → credential_len (c ∷ d ∷ e ∷ s) ≡ none
    → credential_len (c ∷ d ∷ e ∷ t) ≡ none
unfolding credential_len has_prefix
credential_len-cons₃ c d e s t f h = ground arith

-- No match begins where the second or the third byte is ':'.
credential_len-colon₂ : (c : ℕ) (t : Bytes) → credential_len (c ∷ mask ++ t) ≡ none
unfolding credential_len has_prefix
credential_len-colon₂ c t = ground arith

credential_len-colon₃ : (c d : ℕ) (t : Bytes) → credential_len (c ∷ d ∷ mask ++ t) ≡ none
unfolding credential_len has_prefix
credential_len-colon₃ c d t = ground arith

credential_len-short : (c d : ℕ) → credential_len (c ∷ d ∷ []) ≡ none
unfolding credential_len has_prefix
credential_len-short c d = ground arith

credential_len-redact_from₃ :
    (c d : ℕ) (s : Bytes)
    → credential_len (c ∷ d ∷ s) ≡ none
    → credential_len (c ∷ d ∷ redact_from 0 s) ≡ none
credential_len-redact_from₃ c d [] h = rw redact_from-nil h
credential_len-redact_from₃ c d (e ∷ s) h = elim (Option-cases (credential_len (e ∷ s))) [
  | inl p ↦
      rw (redact_from-keep e s p) (credential_len-cons₃ c d e s _ (userinfo_len-redact_from s) h)
  | inr (n, p) ↦ rw (redact_from-mask e s n p) (credential_len-colon₃ c d _)
]

credential_len-redact_from :
    (c : ℕ) (s : Bytes)
    → credential_len (c ∷ s) ≡ none
    → credential_len (c ∷ redact_from 0 s) ≡ none
credential_len-redact_from c [] h = rw redact_from-nil h
credential_len-redact_from c (d ∷ s) h = elim (Option-cases (credential_len (d ∷ s))) [
  | inl e ↦ rw (redact_from-keep d s e) (credential_len-redact_from₃ c d s h)
  | inr (n, e) ↦ rw (redact_from-mask d s n e) (credential_len-colon₂ c _)
]

mask-IsRedacted : (s : Bytes) → IsRedacted s → IsRedacted (mask ++ s)
unfolding credential_len userinfo_len has_prefix
mask-IsRedacted s h =
    (inr refl, (inl refl, (inl refl, (inl refl, (inl refl, (inl refl, (inl refl, h)))))))

redact_from-IsRedacted : (k : ℕ) (s : Bytes) → IsRedacted (redact_from k s)
redact_from-IsRedacted k [] = rw redact_from-nil tt
redact_from-IsRedacted (suc k) (c ∷ s) = rw redact_from-skip (redact_from-IsRedacted k s)
redact_from-IsRedacted zero (c ∷ s) = elim (Option-cases (credential_len (c ∷ s))) [
  | inl e ↦
      rw (redact_from-keep c s e)
        (inl (credential_len-redact_from c s e), redact_from-IsRedacted zero s)
  | inr (n, e) ↦
      rw (redact_from-mask c s n e) (mask-IsRedacted _ (redact_from-IsRedacted (n - 1) s))
]

-- A redacted text holds no credential: wherever `://` is followed by userinfo and '@', the
-- userinfo is the mask's.
pub redact-IsRedacted : (s : Bytes) → IsRedacted (redact s)
unfolding redact
redact-IsRedacted s = redact_from-IsRedacted 0 s

credential_len-mask : (s : Bytes) → credential_len (mask ++ s) ≡ some 7
unfolding credential_len userinfo_len has_prefix
credential_len-mask s = refl

-- At the mask the redaction copies it.
redact_from-at_mask :
    (c : ℕ) (s r : Bytes)
    → c ∷ s ≡ mask ++ r
    → redact_from 6 s ≡ drop 6 s
    → redact_from 0 (c ∷ s) ≡ c ∷ s
redact_from-at_mask c s r e h =
    redact_from-mask c s 7 (rw e (credential_len-mask r))
    ∙ ap (λ t. mask ++ t) (h ∙ ap (drop 7) e)
    ∙ sym e

redact_from-eq-drop : (k : ℕ) (s : Bytes) → IsRedacted s → redact_from k s ≡ drop k s
redact_from-eq-drop k [] h = rw redact_from-nil (sym (drop-nil k))
redact_from-eq-drop (suc k) (c ∷ s) (_, h) = rw redact_from-skip (redact_from-eq-drop k s h)
redact_from-eq-drop zero (c ∷ s) (inl e, h) =
    rw (redact_from-keep c s e) (ap (λ t. c ∷ t) (redact_from-eq-drop zero s h))
redact_from-eq-drop zero (c ∷ s) (inr e, h) =
    let (r, p) = has_prefix-eq-true mask (c ∷ s) e in
    redact_from-at_mask c s r p (redact_from-eq-drop 6 s h)

-- Redaction changes nothing in a text that holds no credential, that is, where each `://userinfo@` is
-- the mask.
pub redact-eq_self : (s : Bytes) → IsRedacted s → redact s ≡ s
unfolding redact
redact-eq_self s h = redact_from-eq-drop 0 s h

-- A second redaction changes nothing.
pub redact_idempotent : (s : Bytes) → redact (redact s) ≡ redact s
redact_idempotent s = redact-eq_self (redact s) (redact-IsRedacted s)
