-- ===== src/Sync/Auth/Examples.antt =====
-- Tests of the path of a clone.
use stackd.Base.{◌≡◌, refl, bytes, text, arith}
use stackd.Git.Validate.{validate_repo_name, invalid_repo_name}
use stackd.Git.Validate.Laws.{IsComponent}
use stackd.Paths.{parse, render, join_path, rel}
use stackd.Sync.Auth.{safe, refused, bad_name, safe_repo_path}
use stackd.Sync.Auth.Below.{child, safe_repo_path-IsChild}

below : safe_repo_path (bytes "/data/clones/") (bytes "infra") ≡ safe (bytes "/data/clones/infra")
unfolding safe_repo_path validate_repo_name join_path rel text
below = refl

outside :
    safe_repo_path (bytes "/data") (bytes "../etc")
    ≡ refused (bad_name (invalid_repo_name (bytes "../etc")))
unfolding safe_repo_path validate_repo_name text
outside = refl

safe_repo_path-IsChild_example :
    IsComponent (bytes "infra")
    × (bytes "/data/clones/infra" ≡ render (child (parse (bytes "/data/clones/")) (bytes "infra")))
unfolding safe_repo_path validate_repo_name join_path rel text
safe_repo_path-IsChild_example =
    safe_repo_path-IsChild (bytes "/data/clones/") (bytes "infra") (λ e. ground arith) refl
