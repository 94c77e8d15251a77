-- ===== src/Server/Exec/Examples.antt =====
-- Tests of a session in which a user types and changes the size of the window.
use stackd.Base.{
  ℕ, ◌+◌, ◌≡◌, refl, Bool, true, Option, none, some, List, [], ◌∷◌, Bytes, bytes, text, pos,
}
use stackd.Docker.{Api}
use stackd.Docker.Shell.{exec_resize}
use stackd.Server.Exec.{Message, text_message, binary_message, ResizeMsg, classify, Bridge, bridge}

abbrev daemon : Api ℕ
daemon = record {
  container_list = λ _ d. (none, d);
  container_inspect = λ _ d. (none, d);
  container_start = λ _ d. (true, d);
  container_stop = λ _ d. (true, d);
  container_restart = λ _ d. (true, d);
  exec_create = λ _ _ _ d. (none, d);
  exec_start = λ _ d. (true, d);
  exec_exit_code = λ _ d. (some (pos 0), d);
  exec_attach = λ _ d. (true, d);
  exec_resize = λ _ height width d. (true, height + width);
}

abbrev unmarshal : Bytes → Option ResizeMsg
unmarshal s = some (record { kind = bytes "resize"; cols = 80; rows = 24 })

abbrev messages : List Message
messages =
    record { kind = text_message; payload = bytes "ls" }
    ∷ record { kind = text_message; payload = bytes "{resize}" }
    ∷ record { kind = binary_message; payload = bytes "q" }
    ∷ []

abbrev can_write : List Bytes → Bytes → Bool
can_write _ _ = true

abbrev start : Bridge ℕ
start = record { written = []; daemon = 0 }

session :
    bridge daemon unmarshal can_write (bytes "e1") messages start
    ≡ record { written = bytes "q" ∷ bytes "ls" ∷ []; daemon = 104 }
unfolding bridge classify exec_resize text
session = refl
