-- ===== src/Stacks/Compose.antt =====
-- main.go and internal/compose/compose.go: which compose file is a stack's, whether it needs secrets,
-- and the command that applies it.
pub mod Laws
mod Examples
use stackd.Base.{
  ◌||◌, ◌&&◌, not, ◌==◌, ℕ, Bool, true, false, Option, none, some, List, [], ◌∷◌, ◌++◌,
  if◌then◌else◌, Bytes, bytes, is_empty, is_upper, contains,
}
use stackd.Process.{Cmd, Host, command_context}
use stackd.Paths.{join_path}

-- compose.Candidates
abbrev pub candidates : List Bytes
candidates =
    bytes "compose.yaml"
    ∷ bytes "compose.yml"
    ∷ bytes "docker-compose.yml"
    ∷ bytes "docker-compose.yaml"
    ∷ []

-- InfisicalConfig
pub record InfisicalConfig : Type 0 where
  pub token : Bytes
  pub env : Bytes
  pub url : Bytes
  pub project_id : Bytes

-- The loop over the bytes of a compose file: '$' before an upper-case letter.
pub has_bare_var : Bytes → Bool
has_bare_var [] = false
has_bare_var (c ∷ []) = false
has_bare_var (c ∷ d ∷ s) = c == b'$' && is_upper d || has_bare_var (d ∷ s)

-- What composeUsesEnvVars answers for the file that it finds.
unfoldable pub uses_vars : Bytes → Bool
unfolding has_bare_var
uses_vars content = contains (bytes "${") content || has_bare_var content

-- The loop of composeUsesEnvVars: the first candidate that can be read decides.
pub first_readable : (Bytes → Option Bytes) → Bytes → List Bytes → Option Bytes
first_readable read dir [] = none
first_readable read dir (name ∷ more) = elim (read (join_path dir name)) [
  | some content ↦ some content
  | none ↦ first_readable read dir more
]

abbrev decides : Option Bytes → Bool
decides none = false
decides (some content) = uses_vars content

abbrev pub toml_path : Bytes → Bytes
toml_path stack_path = join_path stack_path (bytes "infisical.toml")

abbrev pub up : List Bytes
up = bytes "docker" ∷ bytes "compose" ∷ bytes "up" ∷ bytes "-d" ∷ []

-- An argument that is given where its value is not "".
abbrev pub option : Bytes → Bytes → List Bytes
option flag v = if is_empty v then [] else (flag ++ v) ∷ []

module _ (h : Host) (trace : List Cmd) where
  -- composeUsesEnvVars
  unfoldable pub compose_uses_env_vars : Bytes → Bool
  unfolding first_readable
  compose_uses_env_vars stack_path =
      decides (first_readable (h.read_file trace) stack_path candidates)

  -- infisicalMode
  unfoldable pub infisical_mode : Bytes → InfisicalConfig → Bytes
  infisical_mode stack_path cfg =
      if h.exists trace (toml_path stack_path)
      then bytes "per-stack"
      else if not (is_empty cfg.token) && compose_uses_env_vars stack_path
      then bytes "global"
      else []

  -- buildComposeCmd
  unfoldable pub build_compose_cmd : Bytes → InfisicalConfig → Cmd
  build_compose_cmd stack_path cfg =
      let has_toml = h.exists trace (toml_path stack_path) in
      if not has_toml && is_empty cfg.token
      then command_context (bytes "docker") (bytes "compose" ∷ bytes "up" ∷ bytes "-d" ∷ [])
      else if has_toml
      then command_context (bytes "infisical") (
          bytes "run"
          ∷ (bytes "--config=" ++ toml_path stack_path)
          ∷ (option (bytes "--domain=") cfg.url ++ bytes "--" ∷ up))
      else record (command_context (bytes "infisical") (
          bytes "run"
          ∷ (bytes "--env=" ++ cfg.env)
          ∷ (option (bytes "--projectId=") cfg.project_id
              ++ (option (bytes "--domain=") cfg.url ++ bytes "--" ∷ up)))) {
                env = some (h.environ ++ (bytes "INFISICAL_TOKEN=" ++ cfg.token) ∷ []);
              }
