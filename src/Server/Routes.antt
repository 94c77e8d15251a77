-- ===== src/Server/Routes.antt =====
-- internal/server/server.go: registerRoutes, as a table of the patterns and their handlers, and New.
-- Which pattern a request matches is net/http's. The assets and their MIME types are left out.
mod Laws
mod Examples
use stackd.Base.{
  ℕ, ◌==◌, ◌*◌, ◌||◌, Bool, true, false, Option, none, some, List, [], ◌∷◌, ◌++◌, any,
  if◌then◌else◌, Bytes, bytes, ℤ, pos, ltb_ℤ, mul_i64, atoi,
}
use stackd.Schedule.{second}
use stackd.Server.Limiter.{RateLimiter, new_rate_limiter}

-- The handlers.
pub data Endpoint : Type 0 where
  assets index healthz readyz metrics : Endpoint
  status sync logs exec activity apply_stack compose_file : Endpoint
  start_container stop_container restart_container : Endpoint
  list_repos create_repo get_repo update_repo delete_repo : Endpoint
  list_ssh_keys create_ssh_key delete_ssh_key : Endpoint
  get_general update_general system_info : Endpoint

pub record Route : Type 0 where
  pub method : Bytes
  pub pattern : Bytes
  pub endpoint : Endpoint

abbrev route : (method pattern : Bytes) → Endpoint → Route
route method pattern endpoint = record { method = method; pattern = pattern; endpoint = endpoint }

-- registerRoutes, in its order.
unfoldable pub routes : List Route
routes =
    route (bytes "GET") (bytes "/assets/") assets
    ∷ route (bytes "GET") (bytes "/") index
    ∷ route (bytes "GET") (bytes "/api/status") status
    ∷ route (bytes "POST") (bytes "/api/sync/{repo}") sync
    ∷ route (bytes "GET") (bytes "/api/logs/{container}") logs
    ∷ route (bytes "GET") (bytes "/api/exec/{container}") exec
    ∷ route (bytes "GET") (bytes "/api/activity") activity
    ∷ route (bytes "POST") (bytes "/api/stacks/{repo}/{stack}/apply") apply_stack
    ∷ route (bytes "GET") (bytes "/api/stacks/{repo}/{stack}/compose") compose_file
    ∷ route (bytes "POST") (bytes "/api/containers/{container}/start") start_container
    ∷ route (bytes "POST") (bytes "/api/containers/{container}/stop") stop_container
    ∷ route (bytes "POST") (bytes "/api/containers/{container}/restart") restart_container
    ∷ route (bytes "GET") (bytes "/healthz") healthz
    ∷ route (bytes "GET") (bytes "/readyz") readyz
    ∷ route (bytes "GET") (bytes "/metrics") metrics
    ∷ route (bytes "GET") (bytes "/api/settings/repos") list_repos
    ∷ route (bytes "POST") (bytes "/api/settings/repos") create_repo
    ∷ route (bytes "GET") (bytes "/api/settings/repos/{id}") get_repo
    ∷ route (bytes "PUT") (bytes "/api/settings/repos/{id}") update_repo
    ∷ route (bytes "DELETE") (bytes "/api/settings/repos/{id}") delete_repo
    ∷ route (bytes "GET") (bytes "/api/settings/ssh-keys") list_ssh_keys
    ∷ route (bytes "POST") (bytes "/api/settings/ssh-keys") create_ssh_key
    ∷ route (bytes "DELETE") (bytes "/api/settings/ssh-keys/{id}") delete_ssh_key
    ∷ route (bytes "GET") (bytes "/api/settings/general") get_general
    ∷ route (bytes "PUT") (bytes "/api/settings/general") update_general
    ∷ route (bytes "GET") (bytes "/api/settings/system") system_info
    ∷ []

-- The window of the rate limiter, of the variable SYNC_RATE_LIMIT_SECONDS as a number.
abbrev pub rate_window : Option ℤ → ℤ
rate_window none = pos (5 * second)
rate_window (some v) = if ltb_ℤ (pos 0) v then mul_i64 v (pos second) else pos (5 * second)

-- net.JoinHostPort
abbrev pub join_host_port : (host port : Bytes) → Bytes
join_host_port host port =
    if any (λ c. c == b':') host
    then bytes "[" ++ (host ++ (bytes "]:" ++ port))
    else host ++ (bytes ":" ++ port)

-- What New makes of its arguments besides storing them: the address and the limiter.
unfoldable pub new_server : (bind_addr port rate_limit : Bytes) → Bytes × RateLimiter
new_server bind_addr port rate_limit =
    (join_host_port bind_addr port, new_rate_limiter (rate_window (atoi rate_limit)))
