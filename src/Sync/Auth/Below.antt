-- ===== src/Sync/Auth/Below.antt =====
-- main.go: a repository's clone lies directly below the clone directory.
use mathlib.Core.List.{reverse-cons}
use stackd.Base.{
  ℕ, ◌≡◌, ◌≢◌, inl, inr, refl, ap, ◌∙◌, Bool, Bool-cases, Option-cases, List, [], ◌∷◌, ◌++◌, All,
  arith, Bytes, bytes, split_byte, str_eq_iff, ◌==◌,
}
use stackd.Paths.{Clean, parse, render, clean, join_path, resolve, resolve_all}
use stackd.Git.Validate.{validate_repo_name}
use stackd.Git.Validate.Laws.{IsComponent, IsNameByte, validate_repo_name_iff}
use stackd.Sync.Auth.{safe, safe_repo_path}

split_byte-none : (b : ℕ) (s : Bytes) → All (λ c. c ≢ b) s → split_byte b s ≡ s ∷ []
unfolding split_byte
split_byte-none b [] h = refl
split_byte-none b (c ∷ s) (n, h) = rw (split_byte-none b s h) (ground arith)

split_byte-ne : (b : ℕ) (s : Bytes) → (p : Bytes) × (ps : List Bytes) × (split_byte b s ≡ p ∷ ps)
unfolding split_byte
split_byte-ne b [] = ([], [], refl)
split_byte-ne b (c ∷ s) =
    let (p, ps, e) = split_byte-ne b s in
    elim (Bool-cases (c == b)) [
      | inl t ↦ ([], p ∷ ps, rw e (rw t refl))
      | inr t ↦ (c ∷ p, ps, rw e (rw t refl))
    ]

split_byte-append :
    (b : ℕ) (a s : Bytes)
    → All (λ c. c ≢ b) s
    → split_byte b (a ++ b ∷ s) ≡ split_byte b a ++ s ∷ []
unfolding split_byte
split_byte-append b [] s h = rw (split_byte-none b s h) (ground arith)
split_byte-append b (c ∷ a) s h =
    let (p, ps, e) = split_byte-ne b a in
    rw (split_byte-append b a s h)
      (rw e (elim (Bool-cases (c == b)) [ inl t ↦ rw t refl | inr t ↦ rw t refl ]))

component_bytes : (s : Bytes) → All IsNameByte s → All (λ c. c ≢ b'/') s
component_bytes [] h = tt
component_bytes (c ∷ s) (n, h) = ((λ e. ground arith), component_bytes s h)

resolve-component :
    (rooted : Bool) (stack : List Bytes) (name : Bytes)
    → IsComponent name
    → resolve rooted stack name ≡ name ∷ stack
unfolding resolve
resolve-component rooted stack [] h = absurd (h.ne_empty refl)
resolve-component rooted [] (c ∷ s) h =
    ground (
      arith,
      str_eq_iff (c ∷ s) (bytes "."),
      str_eq_iff (c ∷ s) (bytes ".."),
      h.ne_dot,
      h.ne_dot_dot,
    )
resolve-component rooted (top ∷ stack) (c ∷ s) h =
    ground (
      arith,
      str_eq_iff (c ∷ s) (bytes "."),
      str_eq_iff (c ∷ s) (bytes ".."),
      h.ne_dot,
      h.ne_dot_dot,
    )

resolve_all-append :
    (rooted : Bool) (stack parts : List Bytes) (name : Bytes)
    → IsComponent name
    → resolve_all rooted stack (parts ++ name ∷ []) ≡ resolve_all rooted stack parts ++ name ∷ []
unfolding resolve_all
resolve_all-append rooted stack [] name h =
    rw (resolve-component rooted stack name h) (reverse-cons name stack)
resolve_all-append rooted stack (p ∷ parts) name h =
    resolve_all-append rooted (resolve rooted stack p) parts name h

-- The path directly below a path.
abbrev pub child : Clean → Bytes → Clean
child c name = record c { parts = c.parts ++ name ∷ [] }

parse-child :
    (dir name : Bytes)
    → dir ≢ []
    → IsComponent name
    → parse (dir ++ b'/' ∷ name) ≡ child (parse dir) name
unfolding parse
parse-child [] name n h = absurd (n refl)
parse-child (c ∷ dir) name n h =
    ap (λ ps. record { rooted = c == b'/'; parts = ps })
      (ap (resolve_all (c == b'/') [])
          (split_byte-append b'/' (c ∷ dir) name (component_bytes name h.name_bytes))
        ∙ resolve_all-append (c == b'/') [] (split_byte b'/' (c ∷ dir)) name h)

join_path-child :
    (dir name : Bytes)
    → dir ≢ []
    → IsComponent name
    → join_path dir name ≡ render (child (parse dir) name)
unfolding join_path clean
join_path-child [] name n h = absurd (n refl)
join_path-child (c ∷ dir) [] n h = absurd (h.ne_empty refl)
join_path-child (c ∷ dir) (d ∷ name) n h = ap render (parse-child (c ∷ dir) (d ∷ name) n h)

-- A clone directory that safeRepoPath gives lies directly below a directory of clones that is not "":
-- its last component is the name, which is one component, and what is before it the directory's.
pub safe_repo_path-IsChild :
    (dir name : Bytes) {dest : Bytes}
    → dir ≢ []
    → safe_repo_path dir name ≡ safe dest
    → IsComponent name × (dest ≡ render (child (parse dir) name))
unfolding safe_repo_path
safe_repo_path-IsChild dir name n e = elim (Option-cases (validate_repo_name name)) [
  | inr (x, f) ↦ ground (arith, f)
  | inl f ↦
      let c = (validate_repo_name_iff name).0 f in
      (c, ground (arith, f, join_path-child dir name n c))
]
