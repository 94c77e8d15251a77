-- ===== src/Git/Validate.antt =====
-- internal/git/git.go: ValidateRepoName, ValidateRef and ValidateRepoURL.
-- An `error` is a value with a constructor for each message; `none` is nil.
pub mod Laws
mod Examples
use stackd.Base.{
  ℕ, ◌||◌, ◌&&◌, not, ◌==◌, Bool, true, false, Option, none, some, List, [], ◌∷◌, if◌then◌else◌,
  all, Bytes, bytes, is_alnum, is_re_space, is_empty, str_eq, has_prefix, contains, cut_byte,
  to_lower, trim_space,
}

pub data Error : Type 0 where
  invalid_repo_name : Bytes → Error
  empty_ref : Error
  ref_dash : Bytes → Error
  invalid_ref : Bytes → Error
  empty_url : Error
  url_dash : Error
  forbidden_transport : Bytes → Error
  host_dash : Error
  not_a_remote : Bytes → Error
  unparsed_url : Error
  unsupported_scheme : Bytes → Error

-- The bytes of `[A-Za-z0-9._-]` and of `[A-Za-z0-9._/-]`.
abbrev pub is_name_byte : ℕ → Bool
is_name_byte c = is_alnum c || c == b'.' || c == b'_' || c == b'-'

abbrev pub is_ref_byte : ℕ → Bool
is_ref_byte c = is_alnum c || c == b'.' || c == b'_' || c == b'/' || c == b'-'

-- repoNameRe.MatchString
pub repo_name_re : Bytes → Bool
repo_name_re name = not (is_empty name) && all is_name_byte name

-- refRe.MatchString
pub ref_re : Bytes → Bool
ref_re name = not (is_empty name) && all is_ref_byte name

unfoldable pub validate_repo_name : Bytes → Option Error
unfolding repo_name_re
validate_repo_name name =
    if str_eq name (bytes ".") || str_eq name (bytes "..") || not (repo_name_re name)
    then some (invalid_repo_name name)
    else none

unfoldable pub validate_ref : Bytes → Option Error
unfolding ref_re
validate_ref name =
    if is_empty name
    then some empty_ref
    else if has_prefix (bytes "-") name
    then some (ref_dash name)
    else if not (ref_re name)
    then some (invalid_ref name)
    else none

-- The classes `[^\s/@:]` and `[^\s/:]` of scpLikeRe.
abbrev pub is_scp_user_byte : ℕ → Bool
is_scp_user_byte c = not (is_re_space c || c == b'/' || c == b'@' || c == b':')

abbrev pub is_scp_host_byte : ℕ → Bool
is_scp_host_byte c = not (is_re_space c || c == b'/' || c == b':')

-- The user, host and path of `user@host:path`, split at the first '@' and the next ':'.
pub record ScpParts : Type 0 where
  pub user : Bytes
  pub host : Bytes
  pub path : Bytes

pub split_scp : Bytes → Option ScpParts
split_scp raw = elim (cut_byte b'@' raw) [
  | none ↦ none
  | some (user, rest) ↦ elim (cut_byte b':' rest) [
    | none ↦ none
    | some (host, path) ↦ some (record { user = user; host = host; path = path })
  ]
]

-- scpLikeRe on the parts. No class but the last holds ':', and only the host's holds '@', so the
-- expression matches exactly if the parts of `split_scp` are in their classes.
pub scp_like : ScpParts → Bool
scp_like p =
    not (is_empty p.user)
    && all is_scp_user_byte p.user
    && (not (is_empty p.host) && all is_scp_host_byte p.host)
    && (not (is_empty p.path) && all (λ c. not (c == b'\n')) p.path)

pub scp_verdict : Bytes → Option ScpParts → Option Error
unfolding scp_like
scp_verdict raw none = some (not_a_remote raw)
scp_verdict raw (some p) =
    if not (scp_like p)
    then some (not_a_remote raw)
    else if has_prefix (bytes "-") p.host
    then some host_dash
    else none

-- What the program reads of the result of net/url's Parse.
pub record Url : Type 0 where
  pub scheme : Bytes
  pub host : Bytes

pub url_verdict : Option Url → Option Error
url_verdict none = some unparsed_url
url_verdict (some u) =
    if has_prefix (bytes "-") u.host
    then some host_dash
    else if str_eq u.scheme (bytes "https")
        || str_eq u.scheme (bytes "http")
        || str_eq u.scheme (bytes "ssh")
        || str_eq u.scheme (bytes "git")
    then none
    else some (unsupported_scheme u.scheme)

abbrev pub forbidden : List Bytes
forbidden = bytes "ext::" ∷ bytes "file::" ∷ bytes "fd::" ∷ []

-- The loop over the forbidden transports.
pub forbidden_prefix : Bytes → List Bytes → Option Bytes
forbidden_prefix lower [] = none
forbidden_prefix lower (bad ∷ more) =
    if has_prefix bad lower then some bad else forbidden_prefix lower more

-- The checks that follow the trimming. `parse` is url.Parse, `none` where it returns an error.
pub validate_trimmed : (Bytes → Option Url) → Bytes → Option Error
unfolding forbidden_prefix scp_verdict split_scp url_verdict
validate_trimmed parse raw =
    if is_empty raw
    then some empty_url
    else if has_prefix (bytes "-") raw
    then some url_dash
    else elim (forbidden_prefix (to_lower raw) forbidden) [
      | some bad ↦ some (forbidden_transport bad)
      | none ↦
          if not (contains (bytes "://") raw)
          then scp_verdict raw (split_scp raw)
          else url_verdict (parse raw)
    ]

unfoldable pub validate_repo_url : (Bytes → Option Url) → Bytes → Option Error
unfolding validate_trimmed
validate_repo_url parse raw = validate_trimmed parse (trim_space raw)
