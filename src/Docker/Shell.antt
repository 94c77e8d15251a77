-- ===== src/Docker/Shell.antt =====
-- internal/docker/client.go: the interactive session in a container.
pub mod Laws
mod Examples
use stackd.Base.{
  ℕ, ◌&&◌, not, Bool, true, false, Option, none, some, List, [], ◌∷◌, if◌then◌else◌, Bytes, bytes,
  is_empty, ℤ, pos, eqb_ℤ,
}
use stackd.Docker.{Api}

-- candidates of detectShell
abbrev pub shells : List Bytes
shells =
    bytes "/bin/bash" ∷ bytes "/bin/sh" ∷ bytes "/bin/ash" ∷ bytes "/ash" ∷ bytes "/busybox/sh" ∷ []

-- The results of ExecInteractive; a session is attached under the identifier of its exec.
pub data Session : Type 0 where
  no_shell not_created not_attached : Session
  attached : Bytes → Session

module _ {D : Type 0} (api : Api D) where
  -- ExecInspect with the exit code 0.
  abbrev exited_well : Bytes → D → Bool × D
  exited_well id d =
      let (code, d') = api.exec_exit_code id d in
      (elim code [ none ↦ false | some n ↦ eqb_ℤ n (pos 0) ], d')

  -- The probe's start and inspection, for a probe that was created with an identifier.
  abbrev started_well : Bytes → D → Bool × D
  started_well id d =
      let (started, d') = api.exec_start id d in if started then exited_well id d' else (false, d')

  -- The body of the loop of detectShell: whether the shell is usable.
  pub probe : (container_id shell : Bytes) → D → Bool × D
  probe container_id shell d =
      let (r, d') =
        api.exec_create container_id (shell ∷ bytes "-c" ∷ bytes "exit 0" ∷ []) false d in
      elim r [
        | none ↦ (false, d')
        | some id ↦ if is_empty id then (false, d') else started_well id d'
      ]

  pub detect_from : (container_id : Bytes) → List Bytes → D → Option Bytes × D
  unfolding probe
  detect_from container_id [] d = (none, d)
  detect_from container_id (shell ∷ more) d =
      let (ok, d') = probe container_id shell d in
      let rest = detect_from container_id more d' in if ok then (some shell, d') else rest

  -- detectShell
  unfoldable pub detect_shell : (container_id : Bytes) → D → Option Bytes × D
  unfolding detect_from
  detect_shell container_id d = detect_from container_id shells d

  -- ExecInteractive behind detectShell
  pub open_shell : (container_id shell : Bytes) → D → Session × D
  open_shell container_id shell d =
      let (r, d') = api.exec_create container_id (shell ∷ []) true d in
      elim r [
        | none ↦ (not_created, d')
        | some id ↦
            let (ok, d'') = api.exec_attach id d' in (if ok then attached id else not_attached, d'')
      ]

  -- ExecInteractive
  unfoldable pub exec_interactive : (container_id : Bytes) → D → Session × D
  unfolding detect_shell open_shell
  exec_interactive container_id d =
      let (r, d') = detect_shell container_id d in
      elim r [ none ↦ (no_shell, d') | some shell ↦ open_shell container_id shell d' ]

  -- ExecResize
  unfoldable pub exec_resize : (exec_id : Bytes) (height width : ℕ) → D → Bool × D
  exec_resize exec_id height width d = api.exec_resize exec_id height width d
