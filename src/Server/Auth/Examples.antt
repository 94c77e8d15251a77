-- ===== src/Server/Auth/Examples.antt =====
-- Tests of the authorization.
use stackd.Base.{◌≡◌, ◌≢◌, ◌↔◌, ◌⊎◌, ◌++◌, refl, true, false, [], bytes, text, has_prefix}
use stackd.Server.Auth.{Request, serve, unauthorized, is_public, bearer, authorize}
use stackd.Server.Auth.Laws.{authorize_iff}

abbrev with_header : Request
with_header = record {
  path = bytes "/api/status";
  authorization = bytes "Bearer s3cret";
  query_token = [];
}

abbrev without_header : Request
without_header = record { path = bytes "/api/status"; authorization = []; query_token = [] }

served : authorize (bytes "s3cret") with_header ≡ serve
unfolding authorize is_public bearer text
served = refl

refused : authorize (bytes "s3cret") without_header ≡ unauthorized true
unfolding authorize is_public bearer text
refused = refl

authorize_iff_example : (authorize (bytes "s3cret") with_header ≡ serve) ↔ (
    (has_prefix (bytes "/api/") with_header.path ≡ false)
    ⊎ ((bytes "s3cret" ≢ [])
        × ((with_header.authorization ≡ bytes "Bearer " ++ bytes "s3cret")
            ⊎ (with_header.query_token ≡ bytes "s3cret"))))
authorize_iff_example = authorize_iff (bytes "s3cret") with_header
