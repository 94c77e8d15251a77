-- ===== src/Server/Repos/Validity.antt =====
-- internal/server/settings_handlers.go: what the repositories that the handlers store satisfy.
use stackd.Base.{
  ◌≡◌, ◌≢◌, ◌⊎◌, false, inl, inr, none, Option, [], arith, All, Bytes, bytes, has_prefix,
  trim_space, ℤ, pos, ◌≤ℤ◌,
}
use stackd.Git.Validate.{Url, validate_repo_name, validate_repo_url, validate_ref}
use stackd.Git.Validate.Laws.{
  IsComponent, IsRefByte, IsSafeRemote, validate_repo_name_iff, validate_ref_iff,
  validate_repo_url-IsSafeRemote,
}
use stackd.Db.Repos.{RepoDb}
use stackd.Server.Http.{go}
use stackd.Server.Repos.{Env, RepoRequest, check_create, check_update}

-- The checks that the fields pass, as the validators report them.
record Passes (env : Env) (n u b m : Bytes) (i : ℤ) : Type 0 where
  name : validate_repo_name n ≡ none
  url : validate_repo_url env.parse_url u ≡ none
  branch : validate_ref b ≡ none
  remote : validate_ref m ≡ none
  sync_interval : pos 0 ≤ℤ i

abbrev PassesRepo : Env → RepoDb → Type 0
PassesRepo env r = Passes env r.name r.url r.branch r.remote r.sync_interval

check_create-Passes :
    (env : Env) (req : RepoRequest) {r : RepoDb} → check_create env req ≡ go r → PassesRepo env r
unfolding check_create
check_create-Passes env req e = ground arith

-- A field after an update: as it was, or checked.
record Keeps (env : Env) (old r : RepoDb) : Type 0 where
  name : (r.name ≡ old.name) ⊎ (validate_repo_name r.name ≡ none)
  url : (r.url ≡ old.url) ⊎ (validate_repo_url env.parse_url r.url ≡ none)
  branch : (r.branch ≡ old.branch) ⊎ (validate_ref r.branch ≡ none)
  remote : (r.remote ≡ old.remote) ⊎ (validate_ref r.remote ≡ none)
  sync_interval : (r.sync_interval ≡ old.sync_interval) ⊎ (pos 0 ≤ℤ r.sync_interval)

check_update-Keeps :
    (env : Env) (id : Bytes) (old : RepoDb) (req : RepoRequest) {r : RepoDb}
    → check_update env id old req ≡ go r
    → Keeps env old r
unfolding check_update
check_update-Keeps env id old req e = ground arith

-- A ref that git reads as a name and never as a flag.
pub record IsRef (name : Bytes) : Type 0 where
  pub ne_empty : name ≢ []
  pub ref_bytes : All IsRefByte name
  pub no_dash : has_prefix (bytes "-") name ≡ false

-- What holds of a stored repository: its name is one component of a path, its branch and remote are
-- refs, its URL is a safe remote once trimmed, and its interval is not negative.
pub record IsValid (parse : Bytes → Option Url) (n u b m : Bytes) (i : ℤ) : Type 0 where
  pub name : IsComponent n
  pub url : IsSafeRemote parse (trim_space u)
  pub branch : IsRef b
  pub remote : IsRef m
  pub sync_interval : pos 0 ≤ℤ i

abbrev pub IsValidRepo : Env → RepoDb → Type 0
IsValidRepo env r = IsValid env.parse_url r.name r.url r.branch r.remote r.sync_interval

IsRef-of_validate_ref : (name : Bytes) → validate_ref name ≡ none → IsRef name
IsRef-of_validate_ref name h =
    let (n, b, d) = (validate_ref_iff name).0 h in
    record { ne_empty = n; ref_bytes = b; no_dash = d }

IsValid-of_Passes : (env : Env) (r : RepoDb) → PassesRepo env r → IsValidRepo env r
IsValid-of_Passes env r h = record {
  name = (validate_repo_name_iff r.name).0 h.name;
  url = validate_repo_url-IsSafeRemote env.parse_url r.url h.url;
  branch = IsRef-of_validate_ref r.branch h.branch;
  remote = IsRef-of_validate_ref r.remote h.remote;
  sync_interval = h.sync_interval;
}

module _ {A C : Type 0} (P : A → Type 0) {a b : A} where
  -- What holds of the old value holds of the new, if that is the old or passes a check.
  keep_or : (b ≡ a) ⊎ C → P a → (C → P b) → P b
  keep_or (inl e) x f = rw e x
  keep_or (inr c) x f = f c

-- handleCreateRepo stores only valid repositories.
pub check_create-IsValidRepo :
    (env : Env) (req : RepoRequest) {r : RepoDb} → check_create env req ≡ go r → IsValidRepo env r
check_create-IsValidRepo env req {r} e = IsValid-of_Passes env r (check_create-Passes env req e)

-- handleUpdateRepo makes of a valid repository only valid ones.
pub check_update-IsValidRepo :
    (env : Env) (id : Bytes) (old : RepoDb) (req : RepoRequest) {r : RepoDb}
    → IsValidRepo env old
    → check_update env id old req ≡ go r
    → IsValidRepo env r
check_update-IsValidRepo env id old req {r} h e =
    let k = check_update-Keeps env id old req e in
    record {
      name = keep_or IsComponent k.name h.name (validate_repo_name_iff r.name).0;
      url =
          keep_or (λ u. IsSafeRemote env.parse_url (trim_space u)) k.url h.url
            (validate_repo_url-IsSafeRemote env.parse_url r.url);
      branch = keep_or IsRef k.branch h.branch (IsRef-of_validate_ref r.branch);
      remote = keep_or IsRef k.remote h.remote (IsRef-of_validate_ref r.remote);
      sync_interval = keep_or (λ i. pos 0 ≤ℤ i) k.sync_interval h.sync_interval (λ p. p);
    }
