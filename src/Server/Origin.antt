-- ===== src/Server/Origin.antt =====
-- internal/server/server.go: checkOrigin. `host_of` is url.Parse and the Host of its result, and
-- `allowed` the variable ALLOWED_ORIGINS.
mod Laws
mod Examples
use stackd.Base.{
  ◌||◌, Bool, true, false, Option, none, some, List, any, Bytes, is_empty, equal_fold, trim_space,
  split_byte, if◌then◌else◌,
}

-- The loop over the allowed origins.
abbrev pub is_listed : (origin allowed : Bytes) → Bool
is_listed origin allowed = any (λ a. equal_fold (trim_space a) origin) (split_byte b',' allowed)

abbrev pub allows_host : (origin host allowed : Bytes) → Option Bytes → Bool
allows_host origin host allowed none = false
allows_host origin host allowed (some u) =
    if is_empty allowed then equal_fold u host else is_listed origin allowed || equal_fold u host

-- checkOrigin
unfoldable pub check_origin : (host_of : Bytes → Option Bytes) (origin host allowed : Bytes) → Bool
check_origin host_of origin host allowed =
    if is_empty origin then true else allows_host origin host allowed (host_of origin)
