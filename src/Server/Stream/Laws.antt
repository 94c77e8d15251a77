-- ===== src/Server/Stream/Laws.antt =====
-- internal/server/server.go: the events of a stream stand each for one line of text.
use stackd.Base.{
  ◌≡◌, ◌≢◌, refl, inl, inr, Bool-cases, List, [], ◌∷◌, All, All-append, arith, Bytes, is_empty,
  is_empty-eq-false, split_byte, ◌==◌, ℕ, if◌then◌else◌,
}
use stackd.Server.Stream.{event, events_of, chunk_events}

-- An event of one line: not empty, without a line feed.
pub record IsEvent (e : Bytes) : Type 0 where
  pub line : Bytes
  pub form : e ≡ event line
  pub no_feed : All (λ c. c ≢ b'\n') line
  pub some_text : line ≢ []

add_byte-no_feed :
    (b c : ℕ) (parts : List Bytes)
    → All (All (λ c. c ≢ b)) parts
    → All (All (λ c. c ≢ b)) (elim parts [
      | [] ↦ []
      | part ∷ more ↦ if c == b then [] ∷ part ∷ more else (c ∷ part) ∷ more
    ])
add_byte-no_feed b c [] h = tt
add_byte-no_feed b c (part ∷ more) (n, h) = elim (Bool-cases (c == b)) [
  | inl e ↦ rw e (tt, (n, h))
  | inr e ↦ rw e ((ground arith, n), h)
]

split_byte-no_feed : (b : ℕ) (s : Bytes) → All (All (λ c. c ≢ b)) (split_byte b s)
unfolding split_byte
split_byte-no_feed b [] = (tt, tt)
split_byte-no_feed b (c ∷ s) = add_byte-no_feed b c (split_byte b s) (split_byte-no_feed b s)

events_of-IsEvent :
    (lines : List Bytes) → All (All (λ c. c ≢ b'\n')) lines → All IsEvent (events_of lines)
unfolding events_of
events_of-IsEvent [] h = tt
events_of-IsEvent (line ∷ lines) (n, h) = elim (Bool-cases (is_empty line)) [
  | inl e ↦ rw (e, events_of) (events_of-IsEvent lines h)
  | inr e ↦
      rw (e, events_of)
        (
          record { line = line; form = refl; no_feed = n; some_text = is_empty-eq-false line e },
          events_of-IsEvent lines h,
        )
]

-- Whatever a container writes, in whatever chunks, each event of its log is a `data` field of one
-- line that is not empty and has no line feed, so that it ends where the event does.
pub chunk_events-IsEvent : (chunks : List Bytes) → All IsEvent (chunk_events chunks)
unfolding chunk_events
chunk_events-IsEvent [] = tt
chunk_events-IsEvent (p ∷ ps) =
    All-append IsEvent _ _ (events_of-IsEvent _ (split_byte-no_feed b'\n' p))
      (chunk_events-IsEvent ps)
