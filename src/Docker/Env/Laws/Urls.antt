-- ===== src/Docker/Env/Laws/Urls.antt =====
-- internal/docker/client.go: userinfoURLRe against a description of the URLs that it finds.
use stackd.Base.{
  ℕ, ◌≡◌, ◌↔◌, ◌⊎◌, ◌&&◌, &&-eq-true, inl, inr, refl, ap, Bool-cases, true, false, [], ◌∷◌, ◌++◌,
  arith, All, Bytes, bytes, drop, has_prefix, has_prefix-eq-true, ◌==◌,
}
use mathlib.Core.Bool.{false≢true}
use stackd.Docker.Env.{
  is_letter, is_scheme_byte, ends_userinfo, userinfo_at, scheme_at, has_userinfo_url,
}

abbrev IsPart : Bytes → Type 0
IsPart = All (λ c. ends_userinfo c ≡ false)

-- The password with the '@' behind it.
pub record IsPassword (s : Bytes) : Type 0 where
  pub password : Bytes
  pub rest : Bytes
  pub form : s ≡ password ++ b'@' ∷ rest
  pub is_part : IsPart password

-- A user, of one byte at least where `first` is given, a colon and a password.
pub record IsUser (s : Bytes) : Type 0 where
  pub user : Bytes
  pub after : Bytes
  pub form : s ≡ user ++ b':' ∷ after
  pub is_part : IsPart user
  pub password : IsPassword after

IsPassword-sound : (s : Bytes) → userinfo_at true true s ≡ true → IsPassword s
unfolding userinfo_at
IsPassword-sound [] h = ground arith
IsPassword-sound (c ∷ s) h = elim (Bool-cases (ends_userinfo c)) [
  | inl e ↦ record { password = []; rest = s; form = ground arith; is_part = tt }
  | inr e ↦
      let p = IsPassword-sound s (ground arith) in
      record {
        password = c ∷ p.password;
        rest = p.rest;
        form = ap (λ t. c ∷ t) p.form;
        is_part = (e, p.is_part);
      }
]

IsPassword-complete : (p rest : Bytes) → IsPart p → userinfo_at true true (p ++ b'@' ∷ rest) ≡ true
unfolding userinfo_at
IsPassword-complete [] rest h = refl
IsPassword-complete (c ∷ p) rest (e, h) = rw e (IsPassword-complete p rest h)

IsUser-sound : (s : Bytes) → userinfo_at true false s ≡ true → IsUser s
unfolding userinfo_at
IsUser-sound [] h = ground arith
IsUser-sound (c ∷ s) h = elim (Bool-cases (ends_userinfo c)) [
  | inl e ↦ ground arith
  | inr e ↦ elim (Bool-cases (c == b':')) [
    | inl k ↦ record {
      user = [];
      after = s;
      form = ground arith;
      is_part = tt;
      password = IsPassword-sound s (ground arith);
    }
    | inr k ↦
        let p = IsUser-sound s (ground arith) in
        record {
          user = c ∷ p.user;
          after = p.after;
          form = ap (λ t. c ∷ t) p.form;
          is_part = (e, p.is_part);
          password = p.password;
        }
  ]
]

-- Behind a colon that counts, another colon is a byte of the password.
colon-absorbs : (s : Bytes) → userinfo_at true false s ≡ true → userinfo_at true true s ≡ true
unfolding userinfo_at
colon-absorbs [] h = h
colon-absorbs (c ∷ s) h = elim (Bool-cases (c == b':')) [
  | inl k ↦ ground arith
  | inr k ↦ ground (arith, colon-absorbs s)
]

IsUser-complete :
    (u after : Bytes)
    → IsPart u
    → userinfo_at true true after ≡ true
    → userinfo_at true false (u ++ b':' ∷ after) ≡ true
unfolding userinfo_at
IsUser-complete [] after h p = p
IsUser-complete (c ∷ u) after (e, h) p =
    let ih = IsUser-complete u after h p in
    elim (Bool-cases (c == b':')) [
      | inl k ↦ rw e (rw k (colon-absorbs (u ++ b':' ∷ after) ih))
      | inr k ↦ rw e (rw k ih)
    ]

-- The userinfo of a URL that carries a user and a password: the user is not empty.
pub record IsUserinfo (s : Bytes) : Type 0 where
  pub first : ℕ
  pub more : Bytes
  pub form : s ≡ first ∷ more
  pub is_part : ends_userinfo first ≡ false
  pub user : IsUser more

IsUserinfo-sound : (s : Bytes) → userinfo_at false false s ≡ true → IsUserinfo s
unfolding userinfo_at
IsUserinfo-sound [] h = ground arith
IsUserinfo-sound (c ∷ s) h = elim (Bool-cases (ends_userinfo c)) [
  | inl e ↦ ground arith
  | inr e ↦ record {
    first = c;
    more = s;
    form = refl;
    is_part = e;
    user = IsUser-sound s (ground arith);
  }
]

IsUserinfo-complete : (s : Bytes) → IsUserinfo s → userinfo_at false false s ≡ true
unfolding userinfo_at
IsUserinfo-complete s i =
    let u = i.user in
    let p = u.password in
    rw i.form (
      rw i.is_part (
        rw u.form (
          IsUser-complete u.user u.after u.is_part
            (rw p.form (IsPassword-complete p.password p.rest p.is_part)))))

-- A scheme's bytes, then `://` and userinfo.
pub record IsScheme (s : Bytes) : Type 0 where
  pub scheme : Bytes
  pub after : Bytes
  pub form : s ≡ scheme ++ (bytes "://" ++ after)
  pub is_scheme : All (λ c. is_scheme_byte c ≡ true) scheme
  pub userinfo : IsUserinfo after

scheme_at-split :
    (c : ℕ) (s : Bytes)
    → scheme_at (c ∷ s) ≡ true
    → ((after : Bytes) × (c ∷ s ≡ bytes "://" ++ after) × (userinfo_at false false after ≡ true))
      ⊎ ((is_scheme_byte c ≡ true) × (scheme_at s ≡ true))
unfolding scheme_at
scheme_at-split c s h = elim (Bool-cases (has_prefix (bytes "://") (c ∷ s))) [
  | inl e ↦ elim (Bool-cases (userinfo_at false false (drop 3 (c ∷ s)))) [
    | inl u ↦
        let (after, f) = has_prefix-eq-true (bytes "://") (c ∷ s) e in
        inl (after, f, rw (ap (drop 3) f) at u)
    | inr u ↦ inr (ground arith)
  ]
  | inr e ↦ inr (ground arith)
]

IsScheme-sound : (s : Bytes) → scheme_at s ≡ true → IsScheme s
unfolding scheme_at
IsScheme-sound [] h = absurd (false≢true h)
IsScheme-sound (c ∷ s) h = elim (scheme_at-split c s h) [
  | inl (after, f, u) ↦ record {
    scheme = [];
    after = after;
    form = f;
    is_scheme = tt;
    userinfo = IsUserinfo-sound after u;
  }
  | inr (k, t) ↦
      let p = IsScheme-sound s t in
      record {
        scheme = c ∷ p.scheme;
        after = p.after;
        form = ap (λ t. c ∷ t) p.form;
        is_scheme = (k, p.is_scheme);
        userinfo = p.userinfo;
      }
]

IsScheme-complete :
    (scheme after : Bytes)
    → All (λ c. is_scheme_byte c ≡ true) scheme
    → userinfo_at false false after ≡ true
    → scheme_at (scheme ++ (bytes "://" ++ after)) ≡ true
unfolding scheme_at has_prefix
IsScheme-complete [] after h u = ground arith
IsScheme-complete (c ∷ scheme) after (e, h) u = ground (arith, IsScheme-complete scheme after h u)

-- A text with such a URL in it.
pub record HasUserinfoUrl (s : Bytes) : Type 0 where
  pub before : Bytes
  pub letter : ℕ
  pub more : Bytes
  pub form : s ≡ before ++ letter ∷ more
  pub is_letter : is_letter letter ≡ true
  pub scheme : IsScheme more

url_sound : (s : Bytes) → has_userinfo_url s ≡ true → HasUserinfoUrl s
unfolding has_userinfo_url
url_sound [] h = ground arith
url_sound (c ∷ s) h = elim (Bool-cases (is_letter c && scheme_at s)) [
  | inl e ↦ record {
    before = [];
    letter = c;
    more = s;
    form = refl;
    is_letter = (&&-eq-true _ _ e).0;
    scheme = IsScheme-sound s (&&-eq-true _ _ e).1;
  }
  | inr e ↦
      let p = url_sound s (ground arith) in
      record {
        before = c ∷ p.before;
        letter = p.letter;
        more = p.more;
        form = ap (λ t. c ∷ t) p.form;
        is_letter = p.is_letter;
        scheme = p.scheme;
      }
]

url_complete :
    (before : Bytes) (letter : ℕ) (more : Bytes)
    → is_letter letter ≡ true
    → scheme_at more ≡ true
    → has_userinfo_url (before ++ letter ∷ more) ≡ true
unfolding has_userinfo_url
url_complete [] letter more l h = ground arith
url_complete (c ∷ before) letter more l h = ground (arith, url_complete before letter more l h)

-- The expression matches a text exactly if a letter in it begins a URL with a user, which is not
-- empty, a colon, a password and '@', with no space, '/' or '@' in either.
pub has_userinfo_url_iff : (s : Bytes) → (has_userinfo_url s ≡ true) ↔ HasUserinfoUrl s
has_userinfo_url_iff s = (
  url_sound s,
  λ i.
      let k = i.scheme in
      rw i.form (
        url_complete i.before i.letter i.more i.is_letter (
          rw k.form (
            IsScheme-complete k.scheme k.after k.is_scheme
              (IsUserinfo-complete k.after k.userinfo)))),
)
