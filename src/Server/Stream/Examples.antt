-- ===== src/Server/Stream/Examples.antt =====
-- Tests of the streams.
use stackd.Base.{◌≡◌, refl, true, none, some, [], ◌∷◌, bytes, text}
use stackd.Server.Stream.{events_of, write_events, stream, no_client, handle_logs, chunk_events}

two_lines :
    handle_logs (bytes "web-1") (some 1) true (bytes "a\n\nb\n" ∷ [], none)
    ≡ stream (bytes "data: a\n\n" ∷ bytes "data: b\n\n" ∷ [])
unfolding handle_logs chunk_events events_of text
two_lines = refl

no_docker : handle_logs (bytes "web-1") none true ([], none) ≡ no_client
unfolding handle_logs text
no_docker = refl

all_sent : write_events (λ e. true) (bytes "a") ≡ (bytes "data: a\n\n" ∷ [], true)
unfolding write_events events_of text
all_sent = refl
