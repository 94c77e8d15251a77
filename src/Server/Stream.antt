-- ===== src/Server/Stream.antt =====
-- internal/server/server.go: sseWriter, handleLogs, handleActivity and
-- securityHeaders. Headers of the streams are left out.
mod Laws
mod Examples
use stackd.Base.{
  ℕ, Bool, true, false, Option, none, some, List, [], ◌∷◌, ◌++◌, map, if◌then◌else◌, Bytes, bytes,
  is_empty, split_byte,
}

-- One event of a stream.
abbrev pub event : Bytes → Bytes
event line = bytes "data: " ++ (line ++ bytes "\n\n")

-- The loop of sseWriter.Write over the lines: the events it writes.
pub events_of : List Bytes → List Bytes
events_of [] = []
events_of (line ∷ lines) =
    let rest = events_of lines in if is_empty line then rest else event line ∷ rest

-- sseWriter.Write: the events of a text, up to the first that is not written, and whether the call
-- succeeds; `can_write` says how many events are.
unfoldable pub write_events : (can_write : Bytes → Bool) → Bytes → List Bytes × Bool
unfolding events_of
write_events can_write p = send (events_of (split_byte b'\n' p))
  where
    send : List Bytes → List Bytes × Bool
    send [] = ([], true)
    send (e ∷ es) = let (sent, ok) = send es in if can_write e then (e ∷ sent, ok) else ([], false)

-- The answers of handleLogs: three plain texts with 400, 503 and 500, or a stream, at whose end the
-- error of StreamLogs is written as an event.
pub data LogsAnswer : Type 0 where
  missing_container no_client no_streaming : LogsAnswer
  stream : List Bytes → LogsAnswer

abbrev error_events : Option Bytes → List Bytes
error_events none = []
error_events (some e) = events_of (split_byte b'\n' (bytes "error: " ++ e))

-- The events of the chunks that StreamLogs writes, while the connection holds.
pub chunk_events : List Bytes → List Bytes
unfolding events_of
chunk_events [] = []
chunk_events (p ∷ ps) = events_of (split_byte b'\n' p) ++ chunk_events ps

-- handleLogs; `logs` is what StreamLogs writes and its error.
unfoldable pub handle_logs :
    (container : Bytes) (client : Option ℕ) (flusher : Bool)
    → List Bytes × Option Bytes
    → LogsAnswer
unfolding chunk_events
handle_logs container client flusher (chunks, failure) =
    if is_empty container then missing_container else elim client [
      | none ↦ no_client
      | some c ↦
          if flusher then stream (chunk_events chunks ++ error_events failure) else no_streaming
    ]

-- handleActivity: the events that a subscriber's channel gives until it is closed or the request
-- ends; `none` where the answer is 500.
unfoldable pub handle_activity : (flusher : Bool) → List Bytes → Option (List Bytes)
handle_activity flusher received = if flusher then some (map event received) else none

-- securityHeaders
abbrev pub security_headers : List (Bytes × Bytes)
security_headers =
    (bytes "X-Content-Type-Options", bytes "nosniff")
    ∷ (bytes "X-Frame-Options", bytes "DENY")
    ∷ (bytes "Referrer-Policy", bytes "strict-origin-when-cross-origin")
    ∷ []
