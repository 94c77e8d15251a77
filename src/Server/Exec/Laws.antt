-- ===== src/Server/Exec/Laws.antt =====
-- internal/server/server.go: what the PTY of a session gets.
use stackd.Base.{
  ◌≡◌, ◌⊎◌, refl, sym, inl, inr, ◌∙◌, ap, true, Bool, Option, List, [], ◌∷◌, ◌++◌, append_assoc,
  append-nil, Bytes,
}
use stackd.Docker.{Api}
use stackd.Server.Exec.{Message, ResizeMsg, Input, ignored, resize, typed, classify, Bridge, bridge}

-- The bytes that the user typed: those of the messages that are no change of the size.
abbrev pub typed_of : Input → List Bytes
typed_of ignored = []
typed_of (resize r) = []
typed_of (typed s) = s ∷ []

abbrev pub all_typed : (unmarshal : Bytes → Option ResizeMsg) → List Message → List Bytes
all_typed unmarshal [] = []
all_typed unmarshal (m ∷ ms) = all_typed unmarshal ms ++ typed_of (classify unmarshal m)

Input-cases :
    (i : Input)
    → (i ≡ ignored) ⊎ (((r : ResizeMsg) × (i ≡ resize r)) ⊎ ((s : Bytes) × (i ≡ typed s)))
Input-cases ignored = inl refl
Input-cases (resize r) = inr (inl (r, refl))
Input-cases (typed s) = inr (inr (s, refl))

module _ {D : Type 0} (api : Api D) (unmarshal : Bytes → Option ResizeMsg)
    (can_write : List Bytes → Bytes → Bool)
    (always : (before : List Bytes) (s : Bytes) → can_write before s ≡ true) (exec_id : Bytes) where
  -- While no write fails, the PTY of a session gets exactly the messages that are no change of its
  -- size, in their order (the latest at the head), whatever the daemon answers.
  pub bridge-written :
      (ms : List Message) (b : Bridge D)
      → (bridge api unmarshal can_write exec_id ms b).written ≡ all_typed unmarshal ms ++ b.written
  unfolding bridge
  bridge-written [] b = refl
  bridge-written (m ∷ ms) b = elim (Input-cases (classify unmarshal m)) [
    | inl e ↦ rw (e, bridge) (bridge-written ms b ∙ ap (λ t. t ++ b.written) (sym (append-nil _)))
    | inr (inl (r, e)) ↦
        rw (e, bridge) (bridge-written ms _ ∙ ap (λ t. t ++ b.written) (sym (append-nil _)))
    | inr (inr (s, e)) ↦
        rw (e, bridge)
          (rw always (
            bridge-written ms (record b { written = s ∷ b.written })
            ∙ sym (append_assoc (all_typed unmarshal ms) (s ∷ []) b.written)))
  ]
