-- ===== src/Docker/Shell/Examples.antt =====
-- Tests of the session in a container that has only /bin/ash.
use stackd.Base.{
  ℕ, ◌+◌, ◌≡◌, refl, Bool, true, Option, none, some, List, [], ◌∷◌, Bytes, bytes, text, pos, str_eq,
  Bool-cases, inl, inr, if◌then◌else◌,
}
use stackd.Docker.{Api}
use stackd.Docker.Shell.{attached, probe, detect_from, detect_shell, open_shell, exec_interactive}

abbrev usable : Bytes → Bool
usable shell = str_eq shell (bytes "/bin/ash")

abbrev exec_of : List Bytes → Option Bytes
exec_of [] = none
exec_of (shell ∷ _) = if usable shell then some (bytes "e1") else none

-- The state is the number of the calls.
abbrev daemon : Api ℕ
daemon = record {
  container_list = λ _ d. (none, d + 1);
  container_inspect = λ _ d. (none, d + 1);
  container_start = λ _ d. (true, d + 1);
  container_stop = λ _ d. (true, d + 1);
  container_restart = λ _ d. (true, d + 1);
  exec_create = λ _ cmd _ d. (exec_of cmd, d + 1);
  exec_start = λ _ d. (true, d + 1);
  exec_exit_code = λ _ d. (some (pos 0), d + 1);
  exec_attach = λ _ d. (true, d + 1);
  exec_resize = λ _ _ _ d. (true, d + 1);
}

session : exec_interactive daemon (bytes "c1") 0 ≡ (attached (bytes "e1"), 7)
unfolding exec_interactive detect_shell detect_from probe open_shell text
session = refl

probes : (shell : Bytes) (d : ℕ) → (probe daemon (bytes "c1") shell d).0 ≡ usable shell
unfolding probe
probes shell d = elim (Bool-cases (usable shell)) [
  | inl e ↦ rw (e, probe) refl
  | inr e ↦ rw (e, probe) refl
]
