-- ===== src/Server/Auth.antt =====
-- internal/server/server.go: ctEq, authMiddleware, getToken and SetToken.
pub mod Laws
mod Examples
use stackd.Base.{
  [], ◌||◌, ◌&&◌, not, Bool, true, false, if◌then◌else◌, Bytes, bytes, is_empty, str_eq, has_prefix,
  trim_prefix,
}

-- What the middleware reads of a request: the path, the Authorization header and the query's token,
-- each "" where it is missing.
pub record Request : Type 0 where
  pub path : Bytes
  pub authorization : Bytes
  pub query_token : Bytes

-- The next handler serves the request, or the answer is 401; `challenge` says whether that has a
-- WWW-Authenticate header.
pub data Verdict : Type 0 where
  serve : Verdict
  unauthorized : (challenge : Bool) → Verdict

-- ctEq: the result of the comparison; its timing is not modelled.
abbrev pub ct_eq : Bytes → Bytes → Bool
ct_eq = str_eq

-- The paths that need no token.
unfoldable pub is_public : Bytes → Bool
is_public path =
    str_eq path (bytes "/healthz")
    || str_eq path (bytes "/readyz")
    || str_eq path (bytes "/metrics")
    || str_eq path (bytes "/")
    || has_prefix (bytes "/assets/") path
    || not (has_prefix (bytes "/api/") path)

-- The token of the Authorization header, "" where it has none.
unfoldable pub bearer : Bytes → Bytes
bearer auth = if has_prefix (bytes "Bearer ") auth then trim_prefix (bytes "Bearer ") auth else []

-- authMiddleware; `token` is what getToken returns for this request.
unfoldable pub authorize : Bytes → Request → Verdict
authorize token r =
    if is_public r.path
    then serve
    else if is_empty token
    then unauthorized false
    else if not (ct_eq (bearer r.authorization) token)
        && not (not (is_empty r.query_token) && ct_eq r.query_token token)
    then unauthorized true
    else serve
