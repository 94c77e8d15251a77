-- ===== src/Docker/Names/Examples.antt =====
-- Tests of the project names, as Compose gives them.
use stackd.Base.{◌≡◌, refl, text, bytes}
use stackd.Docker.Names.{trim_right_slashes, last_part, compose_project_name}

lower_case : compose_project_name (bytes "/data/infra/My App.v2//") ≡ bytes "myappv2"
unfolding compose_project_name trim_right_slashes last_part text
lower_case = refl

root : compose_project_name (bytes "/") ≡ bytes ""
unfolding compose_project_name trim_right_slashes last_part text
root = refl
