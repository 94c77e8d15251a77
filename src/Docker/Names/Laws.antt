-- ===== src/Docker/Names/Laws.antt =====
-- internal/docker/client.go: what composeProjectName depends on.
use stackd.Base.{
  ℕ, ◌≡◌, ◌≢◌, refl, ap, ◌∙◌, subst, inl, inr, Bool-cases, List, [], ◌∷◌, ◌++◌, arith, All, keep,
  Bytes, split_byte, to_lower, ◌==◌,
}
use stackd.Docker.Names.{trim_right_slashes, last_part, is_project_byte, compose_project_name}

-- A name of a directory: one byte at least, and no slash.
pub record IsName (name : Bytes) : Type 0 where
  pub first : ℕ
  pub more : Bytes
  pub form : name ≡ first ∷ more
  pub no_slash : All (λ c. c ≢ b'/') name

trim_right_slashes-name :
    (c : ℕ) (s : Bytes) → All (λ c. c ≢ b'/') (c ∷ s) → trim_right_slashes (c ∷ s) ≡ c ∷ s
unfolding trim_right_slashes
trim_right_slashes-name c [] (h, _) = ground arith
trim_right_slashes-name c (d ∷ s) (h, k) = rw (trim_right_slashes-name d s k) refl

trim_right_slashes-append :
    (s : Bytes) (d : ℕ) (t : Bytes)
    → trim_right_slashes (d ∷ t) ≡ d ∷ t
    → trim_right_slashes (s ++ d ∷ t) ≡ s ++ d ∷ t
unfolding trim_right_slashes
trim_right_slashes-append [] d t h = h
trim_right_slashes-append (c ∷ []) d t h = rw h refl
trim_right_slashes-append (c ∷ e ∷ s) d t h = rw (trim_right_slashes-append (e ∷ s) d t h) refl

split_byte-name : (b : ℕ) (s : Bytes) → All (λ c. c ≢ b) s → split_byte b s ≡ s ∷ []
unfolding split_byte
split_byte-name b [] h = refl
split_byte-name b (c ∷ s) (n, h) = ground (arith, split_byte-name b s h)

-- A split behind which the last part stands, and one part before it.
record EndsWith (name : Bytes) (parts : List Bytes) : Type 0 where
  first : Bytes
  second : Bytes
  more : List Bytes
  form : parts ≡ first ∷ second ∷ more
  last : last_part (second ∷ more) ≡ name

split_byte-EndsWith :
    (b : ℕ) (s name : Bytes) → All (λ c. c ≢ b) name → EndsWith name (split_byte b (s ++ b ∷ name))
unfolding split_byte last_part
split_byte-EndsWith b [] name h = record {
  first = [];
  second = name;
  more = [];
  form = ground (arith, split_byte-name b name h);
  last = refl;
}
split_byte-EndsWith b (c ∷ s) name h =
    let k = split_byte-EndsWith b s name h in
    elim (Bool-cases (c == b)) [
      | inl e ↦ record {
        first = [];
        second = k.first;
        more = k.second ∷ k.more;
        form = rw (k.form, split_byte) (rw e refl);
        last = k.last;
      }
      | inr e ↦ record {
        first = c ∷ k.first;
        second = k.second;
        more = k.more;
        form = rw (k.form, split_byte) (rw e refl);
        last = k.last;
      }
    ]

trim_right_slashes-slash :
    (dir : Bytes) (c : ℕ) (s : Bytes)
    → All (λ c. c ≢ b'/') (c ∷ s)
    → trim_right_slashes (dir ++ b'/' ∷ c ∷ s) ≡ dir ++ b'/' ∷ c ∷ s
unfolding trim_right_slashes
trim_right_slashes-slash dir c s h =
    trim_right_slashes-append dir b'/' (c ∷ s) (rw (trim_right_slashes-name c s h) refl)

-- The project of a directory's stack has the directory's own name, in lower case and without the
-- other bytes, whatever directory it stands in: two stacks of one name share a project.
pub compose_project_name-join :
    (dir name : Bytes)
    → IsName name
    → compose_project_name (dir ++ b'/' ∷ name) ≡ keep is_project_byte (to_lower name)
unfolding compose_project_name last_part
compose_project_name-join dir name h =
    let t : trim_right_slashes (dir ++ b'/' ∷ name) ≡ dir ++ b'/' ∷ name = rw h.form (
      trim_right_slashes-slash dir h.first h.more
        (subst (All (λ c. c ≢ b'/')) h.form h.no_slash)) in
    let k = split_byte-EndsWith b'/' dir name h.no_slash in
    ap (λ s. keep is_project_byte (to_lower (last_part (split_byte b'/' s)))) t
    ∙ ap (λ p. keep is_project_byte (to_lower (last_part p))) k.form
    ∙ ap (λ n. keep is_project_byte (to_lower n)) k.last
