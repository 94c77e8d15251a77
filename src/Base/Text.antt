-- ===== src/Base/Text.antt =====
-- Go's strings as lists of bytes, and the functions of package `strings` that the program calls.
-- Texts are ASCII: a letter's case is the ASCII one, and space is ASCII white space.
use Prim.Native.Nat.{ℕ, ◌+◌, ◌-◌}
use Prim.Native.Char.{code}
use Prim.Native.String.{String}
use mathlib.Core.Path.{◌≡◌, refl}
use mathlib.Core.Logic.{◌↔◌, ◌≢◌, inl, inr}
use mathlib.Core.Bool.{Bool, true, false, ◌&&◌, ◌||◌}
use mathlib.Core.List.{List, [], ◌∷◌, ◌++◌, map, reverse}
use mathlib.Core.Option.{Option, none, some}
use native.Mathlib.Omega.{arith}
use stackd.Base.Tests.{leb, ◌==◌, if◌then◌else◌, Bool-cases, Option-cases}
use mathlib.Core.Bool.{false≢true}
use stackd.Base.Lists.{length, drop, All}

abbrev pub Bytes : Type 0
Bytes = List ℕ

-- The bytes of a literal.
abbrev pub bytes : String → Bytes
bytes String.[] = []
bytes (String.◌∷◌ c s) = code c ∷ bytes s

unfoldable pub str_eq : Bytes → Bytes → Bool
str_eq [] [] = true
str_eq (x ∷ xs) (y ∷ ys) = x == y && str_eq xs ys
str_eq _ _ = false

pub str_eq_refl : (s : Bytes) → str_eq s s ≡ true
unfolding str_eq
str_eq_refl [] = refl
str_eq_refl (x ∷ xs) = ground (arith, str_eq_refl xs)

str_eq_sound : (s t : Bytes) → str_eq s t ≡ true → s ≡ t
unfolding str_eq
str_eq_sound [] [] h = refl
str_eq_sound [] (y ∷ ys) h = ground arith
str_eq_sound (x ∷ xs) [] h = ground arith
str_eq_sound (x ∷ xs) (y ∷ ys) h = ground (arith, str_eq_sound xs ys)

pub str_eq_iff : (s t : Bytes) → (str_eq s t ≡ true) ↔ (s ≡ t)
str_eq_iff s t = (str_eq_sound s t, λ e. rw e (str_eq_refl t))

-- s == ""
abbrev pub is_empty : Bytes → Bool
is_empty [] = true
is_empty (_ ∷ _) = false

pub is_empty-eq-true : (s : Bytes) → is_empty s ≡ true → s ≡ []
is_empty-eq-true [] h = refl
is_empty-eq-true (c ∷ s) h = ground arith

pub is_empty-eq-false : (s : Bytes) → is_empty s ≡ false → s ≢ []
is_empty-eq-false [] h = ground arith
is_empty-eq-false (c ∷ s) h = λ e. ground arith

-- strings.HasPrefix(s, p), the prefix first.
unfoldable pub has_prefix : Bytes → Bytes → Bool
has_prefix [] s = true
has_prefix (p ∷ ps) [] = false
has_prefix (p ∷ ps) (c ∷ s) = p == c && has_prefix ps s

-- strings.HasSuffix(s, p)
unfoldable pub has_suffix : Bytes → Bytes → Bool
unfolding has_prefix
has_suffix p s = has_prefix (reverse p) (reverse s)

-- strings.TrimPrefix(s, p)
unfoldable pub trim_prefix : Bytes → Bytes → Bytes
unfolding has_prefix
trim_prefix p s = if has_prefix p s then drop (length p) s else s

-- strings.Contains(s, sub)
unfoldable pub contains : Bytes → Bytes → Bool
unfolding has_prefix
contains sub [] = has_prefix sub []
contains sub (c ∷ s) = has_prefix sub (c ∷ s) || contains sub s

-- The parts of `s` before and after the first byte `b`, as strings.Index finds it.
unfoldable pub cut_byte : ℕ → Bytes → Option (Bytes × Bytes)
cut_byte b [] = none
cut_byte b (c ∷ s) =
    let rest = cut_byte b s in
    if c == b then some ([], s) else elim rest [ none ↦ none | some (l, r) ↦ some (c ∷ l, r) ]

-- strings.Split(s, sep) at one byte.
unfoldable pub split_byte : ℕ → Bytes → List Bytes
split_byte b [] = [] ∷ []
split_byte b (c ∷ s) = elim (split_byte b s) [
  | [] ↦ []
  | part ∷ parts ↦ if c == b then [] ∷ part ∷ parts else (c ∷ part) ∷ parts
]

-- strings.Join(parts, sep)
unfoldable pub join : Bytes → List Bytes → Bytes
join sep [] = []
join sep (p ∷ []) = p
join sep (p ∷ q ∷ ps) = p ++ (sep ++ join sep (q ∷ ps))

abbrev pub is_upper : ℕ → Bool
is_upper c = leb b'A' c && leb c b'Z'

abbrev pub is_lower : ℕ → Bool
is_lower c = leb b'a' c && leb c b'z'

abbrev pub is_digit : ℕ → Bool
is_digit c = leb b'0' c && leb c b'9'

abbrev pub is_alnum : ℕ → Bool
is_alnum c = is_upper c || is_lower c || is_digit c

-- ASCII white space, as unicode.IsSpace has it below 128.
abbrev pub is_space : ℕ → Bool
is_space c = leb 9 c && leb c 13 || c == 32

-- `\s` of a regular expression, which leaves out the vertical tab.
abbrev pub is_re_space : ℕ → Bool
is_re_space c = leb 9 c && leb c 10 || leb 12 c && leb c 13 || c == 32

abbrev pub lower_byte : ℕ → ℕ
lower_byte c = if is_upper c then c + 32 else c

abbrev pub upper_byte : ℕ → ℕ
upper_byte c = if is_lower c then c - 32 else c

-- strings.ToLower, strings.ToUpper
abbrev pub to_lower : Bytes → Bytes
to_lower = map lower_byte

abbrev pub to_upper : Bytes → Bytes
to_upper = map upper_byte

-- strings.EqualFold
unfoldable pub equal_fold : Bytes → Bytes → Bool
unfolding str_eq
equal_fold s t = str_eq (to_lower s) (to_lower t)

unfoldable pub trim_left_space : Bytes → Bytes
trim_left_space [] = []
trim_left_space (c ∷ s) = let rest = trim_left_space s in if is_space c then rest else c ∷ s

-- strings.TrimSpace
unfoldable pub trim_space : Bytes → Bytes
unfolding trim_left_space
trim_space s = reverse (trim_left_space (reverse (trim_left_space s)))

-- Names all of these on one `unfolding` line, for tests.
unfoldable pub text : Unit {0}
unfolding str_eq has_prefix has_suffix trim_prefix contains cut_byte split_byte join equal_fold
    trim_space
text = tt

-- A cut splits the text at the first `b`.
pub cut_byte-eq-some :
    (b : ℕ) (s : Bytes) {l r : Bytes}
    → cut_byte b s ≡ some (l, r)
    → (s ≡ l ++ b ∷ r) × All (λ c. c ≢ b) l
unfolding cut_byte
cut_byte-eq-some b [] h = ground arith
cut_byte-eq-some b (c ∷ s) {l} {r} h = elim (Bool-cases (c == b)) [
  | inl e ↦ ground arith
  | inr e ↦ elim (Option-cases (cut_byte b s)) [
    | inl n ↦ ground arith
    | inr ((l', r'), n) ↦ let ih = cut_byte-eq-some b s n in ground arith
  ]
]

pub cut_byte-append :
    (b : ℕ) (l r : Bytes) → All (λ c. c ≢ b) l → cut_byte b (l ++ b ∷ r) ≡ some (l, r)
unfolding cut_byte
cut_byte-append b [] r h = ground arith
cut_byte-append b (c ∷ l) r (n, h) = ground (arith, cut_byte-append b l r h)

pub has_prefix-append : (p s : Bytes) → has_prefix p (p ++ s) ≡ true
unfolding has_prefix
has_prefix-append [] s = refl
has_prefix-append (c ∷ p) s = ground (arith, has_prefix-append p s)

pub has_prefix-eq-true : (p s : Bytes) → has_prefix p s ≡ true → (r : Bytes) × (s ≡ p ++ r)
unfolding has_prefix
has_prefix-eq-true [] s h = (s, refl)
has_prefix-eq-true (c ∷ p) [] h = absurd (false≢true h)
has_prefix-eq-true (c ∷ p) (d ∷ s) h =
    let (r, e) = has_prefix-eq-true p s (ground arith) in (r, ground arith)
