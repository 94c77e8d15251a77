-- ===== src/Docker/Env/Examples.antt =====
-- Tests of the masking of an environment.
use stackd.Base.{◌≡◌, ◌↔◌, refl, true, false, text, bytes, [], ◌∷◌}
use stackd.Docker.Env.{userinfo_at, scheme_at, has_userinfo_url, mask_env_var, mask_env_vars}
use stackd.Docker.Env.Laws.Urls.{HasUserinfoUrl, has_userinfo_url_iff}

masked :
    mask_env_vars (bytes "api_key=a=b" ∷ bytes "HOME=/root" ∷ bytes "X=pg://u:p@h/d" ∷ [])
    ≡ bytes "api_key=[redacted]" ∷ bytes "HOME=/root" ∷ bytes "X=[redacted]" ∷ []
unfolding mask_env_vars mask_env_var has_userinfo_url scheme_at userinfo_at text
masked = refl

-- A password without a user is shown.
no_user : has_userinfo_url (bytes "redis://:secret@cache:6379") ≡ false
unfolding has_userinfo_url scheme_at userinfo_at text
no_user = refl

two_urls : has_userinfo_url (bytes "a://b c1+x://u:@h") ≡ true
unfolding has_userinfo_url scheme_at userinfo_at text
two_urls = refl

has_userinfo_url_iff_example :
    (has_userinfo_url (bytes "pg://u:p@h") ≡ true) ↔ HasUserinfoUrl (bytes "pg://u:p@h")
has_userinfo_url_iff_example = has_userinfo_url_iff (bytes "pg://u:p@h")
