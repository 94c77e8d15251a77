-- ===== src/Server/Auth/Laws.antt =====
-- internal/server/server.go: who is let through.
use stackd.Base.{
  ◌≡◌, ◌≢◌, ◌↔◌, ◌⊎◌, inl, inr, refl, sym, ap, ◌∙◌, not, true, false, [], ◌∷◌, ◌++◌, arith, Bytes,
  bytes, str_eq, str_eq_iff, has_prefix, has_prefix-eq-true, trim_prefix,
}
use stackd.Server.Auth.{Request, serve, is_public, bearer, authorize}

-- The header is "Bearer " and the token.
bearer-append : (t : Bytes) → bearer (bytes "Bearer " ++ t) ≡ t
unfolding bearer has_prefix trim_prefix
bearer-append t = refl

bearer_of_prefix :
    (auth t : Bytes) → t ≢ [] → bearer auth ≡ t → has_prefix (bytes "Bearer ") auth ≡ true
unfolding bearer
bearer_of_prefix auth t n e = ground arith

bearer-eq_iff : (auth t : Bytes) → t ≢ [] → (bearer auth ≡ t) ↔ (auth ≡ bytes "Bearer " ++ t)
bearer-eq_iff auth t n = (
  λ e.
      let (r, p) = has_prefix-eq-true (bytes "Bearer ") auth (bearer_of_prefix auth t n e) in
      let q : r ≡ t = sym (bearer-append r) ∙ ap bearer (sym p) ∙ e in
      p ∙ ap (λ u. bytes "Bearer " ++ u) q,
  λ e. ap bearer e ∙ bearer-append t,
)

not_api_of_literal :
    (path p : Bytes)
    → has_prefix (bytes "/api/") p ≡ false
    → str_eq path p ≡ true
    → has_prefix (bytes "/api/") path ≡ false
not_api_of_literal path p h e = rw ((str_eq_iff path p).0 e) h

not_api_of_assets :
    (path : Bytes)
    → has_prefix (bytes "/assets/") path ≡ true
    → has_prefix (bytes "/api/") path ≡ false
not_api_of_assets path h =
    let (r, p) = has_prefix-eq-true (bytes "/assets/") path h in rw p (unfold has_prefix in refl)

-- The list of paths that need no token comes to this: those that do not begin with "/api/".
is_public-eq : (path : Bytes) → is_public path ≡ not (has_prefix (bytes "/api/") path)
unfolding is_public
is_public-eq path = ground (
  arith,
  not_api_of_literal path (bytes "/healthz") (unfold has_prefix in refl),
  not_api_of_literal path (bytes "/readyz") (unfold has_prefix in refl),
  not_api_of_literal path (bytes "/metrics") (unfold has_prefix in refl),
  not_api_of_literal path (bytes "/") (unfold has_prefix in refl),
  not_api_of_assets path,
)

-- A request is served exactly if its path does not begin with "/api/", or if a token is configured
-- and the request has it, as "Bearer " and the token in its header or as its query's token. Where the
-- configured token is empty no such path is served.
pub authorize_iff :
    (token : Bytes) (r : Request)
    → (authorize token r ≡ serve) ↔ (
        (has_prefix (bytes "/api/") r.path ≡ false)
        ⊎ ((token ≢ []) × ((r.authorization ≡ bytes "Bearer " ++ token) ⊎ (r.query_token ≡ token))))
unfolding authorize
authorize_iff [] r = (
  λ e. inl (ground (arith, is_public-eq r.path)),
  elim [ inl h ↦ ground (arith, is_public-eq r.path) | inr (n, _) ↦ absurd (n refl) ],
)
authorize_iff (c ∷ t) r =
    let b = bearer-eq_iff r.authorization (c ∷ t) (λ e. cc) in
    let s = str_eq_iff (bearer r.authorization) (c ∷ t) in
    let q = str_eq_iff r.query_token (c ∷ t) in
    (
      λ e. ground (arith, is_public-eq r.path, s.0, b.0, q.0),
      λ h. ground (arith, is_public-eq r.path, s.1, b.1, q.1),
    )
