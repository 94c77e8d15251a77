-- ===== src/Git/Validate/Examples.antt =====
-- Tests of the validators.
use stackd.Base.{text, bytes, Bytes, Option, ◌≡◌, refl, none, some, trim_space}
use stackd.Git.Validate.{
  Url, validate_repo_name, validate_repo_url, validate_trimmed, split_scp, scp_like, scp_verdict,
  url_verdict, forbidden_prefix, host_dash, forbidden_transport,
}
use stackd.Git.Validate.Laws.{IsSafeRemote, validate_repo_url-IsSafeRemote}

names : validate_repo_name (bytes "my-repo.v2") ≡ none
unfolding validate_repo_name text
names = refl

abbrev parse : Bytes → Option Url
parse s = some (record { scheme = bytes "https"; host = bytes "example.com" })

forbidden :
    validate_repo_url parse (bytes " EXT::sh -c x") ≡ some (forbidden_transport (bytes "ext::"))
unfolding validate_repo_url validate_trimmed forbidden_prefix text
forbidden = refl

dash_host : validate_repo_url parse (bytes "git@-oProxyCommand=x:y") ≡ some host_dash
unfolding validate_repo_url validate_trimmed forbidden_prefix split_scp scp_like scp_verdict text
dash_host = refl

validate_repo_url-IsSafeRemote_example :
    IsSafeRemote parse (trim_space (bytes " https://example.com/x.git\n"))
unfolding validate_repo_url validate_trimmed forbidden_prefix url_verdict text
validate_repo_url-IsSafeRemote_example =
    validate_repo_url-IsSafeRemote parse (bytes " https://example.com/x.git\n") refl
