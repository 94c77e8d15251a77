-- ===== src/Main/Startup/Examples.antt =====
-- Tests of what main takes from the environment.
use stackd.Base.{◌≡◌, refl, none, [], if◌then◌else◌, Bytes, bytes, str_eq}
use stackd.Main.Startup.{bootstrap}

abbrev getenv : Bytes → Bytes
getenv v = if str_eq v (bytes "SECRET_KEY") then bytes "0123456789abcdef" else []

no_key : bootstrap (λ v. []) ≡ none
unfolding bootstrap
no_key = refl
