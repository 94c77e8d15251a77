-- ===== src/Git/Validate/Laws.antt =====
-- internal/git/git.go: what the validators guarantee of what they accept, and that they accept it.
use stackd.Base.{
  ℕ, ◌≤◌, ◌≡◌, ◌≢◌, ◌↔◌, ◌⊎◌, refl, not, ◌==◌, Bool, Bool-cases, true, false, Option, none, some,
  [], ◌∷◌, ◌++◌, all, inl, inr, arith, All, All-of_all, Bytes, bytes, is_empty, str_eq_iff,
  has_prefix, contains, to_lower, trim_space, cut_byte, cut_byte-eq-some, if◌then◌else◌,
  Option-cases, is_re_space,
}
use stackd.Git.Validate.{
  is_name_byte, is_ref_byte, validate_repo_name, validate_ref, Url, ScpParts, split_scp, scp_like,
  scp_verdict, url_verdict, validate_trimmed, validate_repo_url, is_scp_user_byte, is_scp_host_byte,
}

abbrev IsAlnum : ℕ → Type 0
IsAlnum c = ((b'A' ≤ c) × (c ≤ b'Z')) ⊎ ((b'a' ≤ c) × (c ≤ b'z')) ⊎ ((b'0' ≤ c) × (c ≤ b'9'))

abbrev pub IsNameByte : ℕ → Type 0
IsNameByte c = IsAlnum c ⊎ (c ≡ b'.') ⊎ (c ≡ b'_') ⊎ (c ≡ b'-')

abbrev pub IsRefByte : ℕ → Type 0
IsRefByte c = IsNameByte c ⊎ (c ≡ b'/')

is_name_byte_iff : (c : ℕ) → (is_name_byte c ≡ true) ↔ IsNameByte c
is_name_byte_iff c = (λ h. ground arith, λ h. ground arith)

is_ref_byte_iff : (c : ℕ) → (is_ref_byte c ≡ true) ↔ IsRefByte c
is_ref_byte_iff c = (λ h. ground arith, λ h. ground arith)

all_iff {ℓ} :
    (P : ℕ → Type ℓ) (p : ℕ → Bool)
    → ((c : ℕ) → (p c ≡ true) ↔ P c)
    → (s : Bytes) → (all p s ≡ true) ↔ All P s
all_iff P p f [] = (λ _. tt, λ _. refl)
all_iff P p f (c ∷ s) = (
  λ h. ((f c).0 (ground arith), (all_iff P p f s).0 (ground arith)),
  λ (q, h). ground (arith, (f c).1 q, (all_iff P p f s).1 h),
)

-- A name that is one component of a path: it is not empty, "." or "..", and has only letters,
-- digits, '.', '_' and '-', so no separator.
pub record IsComponent (name : Bytes) : Type 0 where
  pub ne_empty : name ≢ []
  pub ne_dot : name ≢ bytes "."
  pub ne_dot_dot : name ≢ bytes ".."
  pub name_bytes : All IsNameByte name

-- A repository name is accepted exactly when it is one component of a path.
pub validate_repo_name_iff : (name : Bytes) → (validate_repo_name name ≡ none) ↔ IsComponent name
unfolding validate_repo_name
validate_repo_name_iff [] = (λ h. ground arith, λ h. absurd (h.ne_empty refl))
validate_repo_name_iff (c ∷ s) =
    let ok = all_iff IsNameByte is_name_byte is_name_byte_iff (c ∷ s) in
    let dot = str_eq_iff (c ∷ s) (bytes ".") in
    let dots = str_eq_iff (c ∷ s) (bytes "..") in
    (
      λ h. record {
        ne_empty = λ e. cc;
        ne_dot = λ e. ground (arith, dot.1 e);
        ne_dot_dot = λ e. ground (arith, dots.1 e);
        name_bytes = ok.0 (ground arith);
      },
      λ h. ground (arith, dot.0, dots.0, h.ne_dot, h.ne_dot_dot, ok.1 h.name_bytes),
    )

-- A ref is accepted exactly when it is not empty, holds only letters, digits, '.', '_', '/' and
-- '-', and does not begin with '-', which git would read as a flag.
pub validate_ref_iff :
    (name : Bytes)
    → (validate_ref name ≡ none)
      ↔ ((name ≢ []) × All IsRefByte name × (has_prefix (bytes "-") name ≡ false))
unfolding validate_ref
validate_ref_iff [] = (λ h. ground arith, λ h. absurd (h.0 refl))
validate_ref_iff (c ∷ s) =
    let ok = all_iff IsRefByte is_ref_byte is_ref_byte_iff (c ∷ s) in
    (λ h. ((λ e. cc), ok.0 (ground arith), ground arith), λ (n, b, d). ground (arith, ok.1 b))

-- A remote of the form user@host:path, as ssh takes it: user and host hold no white space, '/' or
-- ':', and the host does not begin with '-', which ssh would read as an option.
pub record IsScp (raw : Bytes) : Type 0 where
  pub user : Bytes
  pub host : Bytes
  pub path : Bytes
  pub form : raw ≡ user ++ b'@' ∷ (host ++ b':' ∷ path)
  pub user_bytes : All (λ c. (c ≢ b'/') × (c ≢ b'@') × (c ≢ b':') × (is_re_space c ≡ false)) user
  pub host_bytes : All (λ c. (c ≢ b'/') × (c ≢ b':') × (is_re_space c ≡ false)) host
  pub host_no_dash : has_prefix (bytes "-") host ≡ false
  pub user_ne_empty : user ≢ []
  pub host_ne_empty : host ≢ []
  pub path_ne_empty : path ≢ []
  pub path_bytes : All (λ c. c ≢ b'\n') path

user_byte :
    (c : ℕ)
    → is_scp_user_byte c ≡ true
    → (c ≢ b'/') × (c ≢ b'@') × (c ≢ b':') × (is_re_space c ≡ false)
user_byte c h = ground arith

host_byte : (c : ℕ) → is_scp_host_byte c ≡ true → (c ≢ b'/') × (c ≢ b':') × (is_re_space c ≡ false)
host_byte c h = ground arith

ne_empty_of : (s : Bytes) → not (is_empty s) ≡ true → s ≢ []
ne_empty_of [] h = ground arith
ne_empty_of (c ∷ s) h = λ e. cc

split_scp-eq-some :
    (raw : Bytes) {p : ScpParts}
    → split_scp raw ≡ some p
    → raw ≡ p.user ++ b'@' ∷ (p.host ++ b':' ∷ p.path)
unfolding split_scp
split_scp-eq-some raw {p} h = elim (Option-cases (cut_byte b'@' raw)) [
  | inl n ↦ ground arith
  | inr ((user, rest), e) ↦ elim (Option-cases (cut_byte b':' rest)) [
    | inl n ↦ ground arith
    | inr ((host, path), e') ↦
        let a = (cut_byte-eq-some b'@' raw e).0 in
        let b = (cut_byte-eq-some b':' rest e').0 in ground arith
  ]
]

scp_parts :
    (raw : Bytes) (p : ScpParts)
    → split_scp raw ≡ some p
    → scp_like p ≡ true
    → has_prefix (bytes "-") p.host ≡ false
    → IsScp raw
unfolding scp_like
scp_parts raw p e l d = record {
  user = p.user;
  host = p.host;
  path = p.path;
  form = split_scp-eq-some raw e;
  user_bytes = All-of_all _ is_scp_user_byte user_byte p.user (ground arith);
  host_bytes = All-of_all _ is_scp_host_byte host_byte p.host (ground arith);
  host_no_dash = d;
  user_ne_empty = ne_empty_of p.user (ground arith);
  host_ne_empty = ne_empty_of p.host (ground arith);
  path_ne_empty = ne_empty_of p.path (ground arith);
  path_bytes = All-of_all _ (λ c. not (c == b'\n')) (λ c q. ground arith) p.path (ground arith);
}

scp_verdict-IsScp : (raw : Bytes) → scp_verdict raw (split_scp raw) ≡ none → IsScp raw
unfolding scp_verdict
scp_verdict-IsScp raw h = elim (Option-cases (split_scp raw)) [
  | inl n ↦ ground arith
  | inr (p, e) ↦ scp_parts raw p e (ground arith) (ground arith)
]

-- A parsed URL of one of the four schemes, whose host is no flag.
pub record IsSafeUrl (u : Url) : Type 0 where
  pub host_no_dash : has_prefix (bytes "-") u.host ≡ false
  pub scheme :
      (u.scheme ≡ bytes "https")
      ⊎ (u.scheme ≡ bytes "http")
      ⊎ (u.scheme ≡ bytes "ssh")
      ⊎ (u.scheme ≡ bytes "git")

url_verdict-IsSafeUrl : (u : Url) → url_verdict (some u) ≡ none → IsSafeUrl u
unfolding url_verdict
url_verdict-IsSafeUrl u h = ground (
  arith,
  str_eq_iff u.scheme (bytes "https"),
  str_eq_iff u.scheme (bytes "http"),
  str_eq_iff u.scheme (bytes "ssh"),
  str_eq_iff u.scheme (bytes "git"),
)

-- What is true of a remote that the program passes to git.
pub record IsSafeRemote (parse : Bytes → Option Url) (raw : Bytes) : Type 0 where
  pub ne_empty : raw ≢ []
  pub no_dash : has_prefix (bytes "-") raw ≡ false
  pub no_ext : has_prefix (bytes "ext::") (to_lower raw) ≡ false
  pub no_file : has_prefix (bytes "file::") (to_lower raw) ≡ false
  pub no_fd : has_prefix (bytes "fd::") (to_lower raw) ≡ false
  pub shape :
      ((contains (bytes "://") raw ≡ false) × IsScp raw)
      ⊎ ((contains (bytes "://") raw ≡ true) × ((u : Url) × (parse raw ≡ some u) × IsSafeUrl u))

url_shape :
    (parse : Bytes → Option Url) (raw : Bytes)
    → url_verdict (parse raw) ≡ none
    → (u : Url) × (parse raw ≡ some u) × IsSafeUrl u
url_shape parse raw h = elim (Option-cases (parse raw)) [
  | inl n ↦ absurd (unfold url_verdict in (cc (h, n)))
  | inr (u, e) ↦ (u, e, url_verdict-IsSafeUrl u (rw e at h))
]

remote_shape :
    (parse : Bytes → Option Url) (raw : Bytes)
    → (if not (contains (bytes "://") raw)
        then scp_verdict raw (split_scp raw)
        else url_verdict (parse raw))
      ≡ none
    → ((contains (bytes "://") raw ≡ false) × IsScp raw)
      ⊎ ((contains (bytes "://") raw ≡ true) × ((u : Url) × (parse raw ≡ some u) × IsSafeUrl u))
remote_shape parse raw h = elim (Bool-cases (contains (bytes "://") raw)) [
  | inl e ↦ inr (e, url_shape parse raw (rw e at h))
  | inr e ↦ inl (e, scp_verdict-IsScp raw (rw e at h))
]

validate_trimmed-IsSafeRemote :
    (parse : Bytes → Option Url) (raw : Bytes)
    → validate_trimmed parse raw ≡ none
    → IsSafeRemote parse raw
unfolding validate_trimmed
validate_trimmed-IsSafeRemote parse [] h = ground arith
validate_trimmed-IsSafeRemote parse (c ∷ s) h = record {
  ne_empty = λ e. cc;
  no_dash = ground arith;
  no_ext = ground arith;
  no_file = ground arith;
  no_fd = ground arith;
  shape = remote_shape parse (c ∷ s) (ground arith);
}

-- A URL is accepted only if what is left of it after trimming is a safe remote: not a flag, not a
-- forbidden transport in any case, and either of scp form or parsed with one of the four schemes
-- and a host that is no flag.
pub validate_repo_url-IsSafeRemote :
    (parse : Bytes → Option Url) (raw : Bytes)
    → validate_repo_url parse raw ≡ none
    → IsSafeRemote parse (trim_space raw)
unfolding validate_repo_url
validate_repo_url-IsSafeRemote parse raw h = validate_trimmed-IsSafeRemote parse (trim_space raw) h
