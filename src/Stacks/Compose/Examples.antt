-- ===== src/Stacks/Compose/Examples.antt =====
-- Tests of the compose commands.
use stackd.Base.{
  ◌≡◌, ◌++◌, refl, none, some, [], ◌∷◌, bytes, text, pos, str_eq, if◌then◌else◌, arith,
}
use stackd.Paths.{join_path}
use stackd.Process.{Host}
use stackd.Stacks.Compose.{
  InfisicalConfig, toml_path, build_compose_cmd, uses_vars, has_bare_var, first_readable,
  compose_uses_env_vars, infisical_mode,
}
use stackd.Stacks.Compose.Laws.{with_token, build_compose_cmd-token}

-- A host with one compose file.
abbrev host : Host
host = record {
  run = λ _ _. record { output = []; stdout = []; exit_stderr = []; failure = none };
  exists = λ _ path. str_eq path (bytes "/data/web/compose.yml");
  read_file = λ _ path.
      if str_eq path (bytes "/data/web/compose.yml")
      then some (bytes "image: nginx:$TAG")
      else none;
  read_dir = λ _ _. none;
  now = λ _. pos 0;
  environ = bytes "PATH=/bin" ∷ [];
  known_hosts_dir = [];
}

abbrev config : InfisicalConfig
config = record { token = []; env = bytes "prod"; url = []; project_id = bytes "p1" }

global :
    infisical_mode host [] (bytes "/data/web") (with_token (bytes "st.1") config) ≡ bytes "global"
unfolding infisical_mode compose_uses_env_vars first_readable uses_vars has_bare_var join_path text
global = refl

build_compose_cmd-token_example :
    ((build_compose_cmd host [] (bytes "/data/web") (with_token (bytes "st.1") config)).name
      ≡ (build_compose_cmd host [] (bytes "/data/web") (with_token (bytes "st.2") config)).name)
    × ((build_compose_cmd host [] (bytes "/data/web") (with_token (bytes "st.1") config)).args
        ≡ (build_compose_cmd host [] (bytes "/data/web") (with_token (bytes "st.2") config)).args)
    × ((build_compose_cmd host [] (bytes "/data/web") (with_token (bytes "st.1") config)).env ≡ (
        if host.exists [] (toml_path (bytes "/data/web"))
        then none
        else some (host.environ ++ (bytes "INFISICAL_TOKEN=" ++ bytes "st.1") ∷ [])))
build_compose_cmd-token_example =
    build_compose_cmd-token host [] (bytes "/data/web") config (bytes "st.1") (bytes "st.2")
      (λ e. ground arith) (λ e. ground arith)
