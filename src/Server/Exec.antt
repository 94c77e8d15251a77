-- ===== src/Server/Exec.antt =====
-- internal/server/server.go: handleExec. What the PTY writes back and the end of the session by its
-- timeout are left out: the messages are those that were read until then.
pub mod Laws
mod Examples
use stackd.Base.{
  ℕ, ◌==◌, ◌&&◌, not, Bool, true, false, Option, none, some, List, [], ◌∷◌, if◌then◌else◌, Bytes,
  is_empty, str_eq, bytes,
}
use stackd.Docker.{Api}
use stackd.Docker.Shell.{
  Session, no_shell, not_created, not_attached, attached, exec_interactive, exec_resize,
}

-- The type of a WebSocket message.
pub data Kind : Type 0 where
  text_message binary_message other_message : Kind

pub record Message : Type 0 where
  pub kind : Kind
  pub payload : Bytes

-- execResizeMsg
pub record ResizeMsg : Type 0 where
  pub kind : Bytes
  pub cols : ℕ
  pub rows : ℕ

-- What becomes of a message: nothing, a change of the window's size, or bytes for the PTY.
pub data Input : Type 0 where
  ignored : Input
  resize : ResizeMsg → Input
  typed : Bytes → Input

abbrev is_data : Kind → Bool
is_data text_message = true
is_data binary_message = true
is_data other_message = false

abbrev first_is_brace : Bytes → Bool
first_is_brace [] = false
first_is_brace (c ∷ s) = c == b'{'

-- The resize message of some bytes; `unmarshal` is json.Unmarshal into an execResizeMsg.
abbrev as_resize : Option ResizeMsg → Option ResizeMsg
as_resize none = none
as_resize (some r) = if str_eq r.kind (bytes "resize") then some r else none

abbrev pub resize_of : (unmarshal : Bytes → Option ResizeMsg) → Bytes → Option ResizeMsg
resize_of unmarshal s = if first_is_brace s then as_resize (unmarshal s) else none

unfoldable pub classify : (unmarshal : Bytes → Option ResizeMsg) → Message → Input
classify unmarshal m =
    if is_data m.kind
    then (elim (resize_of unmarshal m.payload) [ some r ↦ resize r | none ↦ typed m.payload ])
    else ignored

-- What the loop has done: the bytes written to the PTY and the state of the daemon.
pub record Bridge (D : Type 0) : Type 0 where
  pub written : List Bytes
  pub daemon : D

module _ {D : Type 0} (api : Api D) (unmarshal : Bytes → Option ResizeMsg) where
  -- The loop over the messages; `can_write` says whether a write to the PTY succeeds after those
  -- before it, the latest at the head.
  pub bridge :
      (can_write : List Bytes → Bytes → Bool) (exec_id : Bytes) → List Message → Bridge D → Bridge D
  bridge can_write exec_id [] b = b
  bridge can_write exec_id (m ∷ ms) b =
      let resized : ResizeMsg → Bridge D =
        λ r. record b { daemon = (exec_resize api exec_id r.rows r.cols b.daemon).1 } in
      elim (classify unmarshal m) [
        | ignored ↦ bridge can_write exec_id ms b
        | resize r ↦ bridge can_write exec_id ms (resized r)
        | typed s ↦
            let rest = bridge can_write exec_id ms (record b { written = s ∷ b.written }) in
            if can_write b.written s then rest else b
      ]

  -- The answers of handleExec: the two plain texts with 503 and 400, a failed upgrade, the text of a
  -- shell that did not start, and a session.
  pub data ExecAnswer : Type 0 where
    docker_unavailable missing_container not_upgraded failed_to_start : ExecAnswer
    ended : List Bytes → ExecAnswer

  abbrev with_session : (List Bytes → Bytes → Bool) → List Message → Session × D → ExecAnswer × D
  with_session can_write ms (attached exec_id, d) =
      let b = bridge can_write exec_id ms (record { written = []; daemon = d }) in
      (ended b.written, b.daemon)
  with_session can_write ms (no_shell, d) = (failed_to_start, d)
  with_session can_write ms (not_created, d) = (failed_to_start, d)
  with_session can_write ms (not_attached, d) = (failed_to_start, d)

  -- handleExec; `upgraded` is whether the WebSocket was opened, which asks checkOrigin.
  unfoldable pub handle_exec :
      (client : Option ℕ) (container_id : Bytes) (upgraded : Bool)
      (can_write : List Bytes → Bytes → Bool)
      → List Message
      → D
      → ExecAnswer × D
  unfolding bridge
  handle_exec none container_id upgraded can_write ms d = (docker_unavailable, d)
  handle_exec (some c) container_id upgraded can_write ms d =
      if is_empty container_id
      then (missing_container, d)
      else if not upgraded
      then (not_upgraded, d)
      else with_session can_write ms (exec_interactive api container_id d)
