-- ===== src/Server/Routes/Laws.antt =====
-- internal/server/server.go: which endpoints the token guards.
use stackd.Base.{
  ◌==◌, ◌≡◌, ◌≢◌, refl, inl, inr, Bool, true, false, [], ◌∷◌, ◌++◌, All, arith, if◌then◌else◌,
  Bytes, bytes, has_prefix, All-of_all, sym, ◌∙◌, text, ◌||◌,
}
use mathlib.Core.Bool.{false≢true}
use stackd.Server.Auth.{serve, authorize}
use stackd.Server.Auth.Laws.{authorize_iff}
use stackd.Server.Routes.{Endpoint, assets, index, healthz, readyz, metrics, Route, routes}

-- The endpoints that need no token.
abbrev pub is_open : Endpoint → Bool
is_open assets = true
is_open index = true
is_open healthz = true
is_open readyz = true
is_open metrics = true
is_open _ = false

-- The part of a pattern before its first variable, which every path that it matches begins with.
abbrev pub literal : Bytes → Bytes
literal [] = []
literal (c ∷ s) = if c == b'{' then [] else c ∷ literal s

-- A request whose path begins with the literal part of a pattern is not served without a token.
abbrev pub IsGuarded : Route → Type 0
IsGuarded r =
    (rest token : Bytes)
    → authorize token
        (record { path = literal r.pattern ++ rest; authorization = []; query_token = [] })
      ≢ serve

has_prefix-longer : (p s rest : Bytes) → has_prefix p s ≡ true → has_prefix p (s ++ rest) ≡ true
unfolding has_prefix
has_prefix-longer [] s rest h = refl
has_prefix-longer (c ∷ p) [] rest h = ground arith
has_prefix-longer (c ∷ p) (d ∷ s) rest h = ground (arith, has_prefix-longer p s rest)

guarded : (r : Route) → has_prefix (bytes "/api/") (literal r.pattern) ≡ true → IsGuarded r
guarded r h rest token e =
    elim ((authorize_iff token
        (record { path = literal r.pattern ++ rest; authorization = []; query_token = [] })).0
      e) [
        | inl f ↦ false≢true (sym f ∙ has_prefix-longer (bytes "/api/") (literal r.pattern) rest h)
        | inr (n, inl f) ↦ ground arith
        | inr (n, inr f) ↦ n (sym f)
      ]

-- Every endpoint but the assets, the page, the two probes and the metrics is guarded: a request that
-- its pattern can match, without a token in the header or the query, is not served, whatever the
-- configured token, the empty one included.
pub routes-IsGuarded : All (λ r. is_open r.endpoint ≡ false → IsGuarded r) routes
unfolding routes text
routes-IsGuarded =
    All-of_all (λ r. is_open r.endpoint ≡ false → IsGuarded r)
      (λ r. is_open r.endpoint || has_prefix (bytes "/api/") (literal r.pattern))
      (λ r h o. guarded r (ground arith)) routes refl
