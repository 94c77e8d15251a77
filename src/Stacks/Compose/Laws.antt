-- ===== src/Stacks/Compose/Laws.antt =====
-- main.go: the Infisical token is in no command line, and where it goes.
use stackd.Base.{
  ◌≡◌, ◌≢◌, inl, inr, refl, Bool-cases, none, some, List, [], ◌∷◌, ◌++◌, Bytes, bytes,
  if◌then◌else◌,
}
use stackd.Process.{Cmd, Host}
use stackd.Stacks.Compose.{InfisicalConfig, toml_path, build_compose_cmd}

abbrev pub with_token : Bytes → InfisicalConfig → InfisicalConfig
with_token t cfg = record cfg { token = t }

-- For any two tokens that are not "" the program and its arguments are the same, so no argument holds
-- the token. The environment has
-- the token where the stack has no infisical.toml, and is the program's own where it has one.
pub build_compose_cmd-token :
    (h : Host) (trace : List Cmd) (stack_path : Bytes) (cfg : InfisicalConfig) (t u : Bytes)
    → t ≢ []
    → u ≢ []
    → ((build_compose_cmd h trace stack_path (with_token t cfg)).name
        ≡ (build_compose_cmd h trace stack_path (with_token u cfg)).name)
      × ((build_compose_cmd h trace stack_path (with_token t cfg)).args
          ≡ (build_compose_cmd h trace stack_path (with_token u cfg)).args)
      × ((build_compose_cmd h trace stack_path (with_token t cfg)).env ≡ (
          if h.exists trace (toml_path stack_path)
          then none
          else some (h.environ ++ (bytes "INFISICAL_TOKEN=" ++ t) ∷ [])))
unfolding build_compose_cmd
build_compose_cmd-token h trace p cfg [] u a b = absurd (a refl)
build_compose_cmd-token h trace p cfg (c ∷ t) [] a b = absurd (b refl)
build_compose_cmd-token h trace p cfg (c ∷ t) (d ∷ u) a b =
    elim (Bool-cases (h.exists trace (toml_path p))) [
      | inl e ↦ (
        rw (e, build_compose_cmd) refl,
        rw (e, build_compose_cmd) refl,
        rw (e, build_compose_cmd) refl,
      )
      | inr e ↦ (
        rw (e, build_compose_cmd) refl,
        rw (e, build_compose_cmd) refl,
        rw (e, build_compose_cmd) refl,
      )
    ]
