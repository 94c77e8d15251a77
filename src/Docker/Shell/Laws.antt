-- ===== src/Docker/Shell/Laws.antt =====
-- internal/docker/client.go: which shell a session has.
use stackd.Base.{
  ◌≡◌, refl, inl, inr, Bool-cases, Bool, Option, none, some, List, [], ◌∷◌, if◌then◌else◌, Bytes,
}
use stackd.Docker.{Api}
use stackd.Docker.Shell.{shells, probe, detect_from, detect_shell}

-- The first usable shell.
abbrev pub first_usable : (Bytes → Bool) → List Bytes → Option Bytes
first_usable usable [] = none
first_usable usable (s ∷ ss) = if usable s then some s else first_usable usable ss

module _ {D : Type 0} (api : Api D) (container_id : Bytes) (usable : Bytes → Bool)
    (probes : (shell : Bytes) (d : D) → (probe api container_id shell d).0 ≡ usable shell) where
  detect_from-first :
      (ss : List Bytes) (d : D) → (detect_from api container_id ss d).0 ≡ first_usable usable ss
  unfolding detect_from
  detect_from-first [] d = refl
  detect_from-first (s ∷ ss) d = elim (Bool-cases (usable s)) [
    | inl e ↦ rw (probes s d, e) refl
    | inr e ↦ rw (probes s d, e) (detect_from-first ss _)
  ]

  -- Where a probe of a shell gives the same answer at all times, detectShell finds the first usable
  -- candidate, and none only if none is usable.
  pub detect_shell-first :
      (d : D) → (detect_shell api container_id d).0 ≡ first_usable usable shells
  unfolding detect_shell
  detect_shell-first d = detect_from-first shells d
