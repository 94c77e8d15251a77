-- ===== src/Metrics/Labels.antt =====
-- internal/metrics/metrics.go: labels of the Prometheus text.
use stackd.Base.{
  ◌≡◌, ◌≢◌, refl, ap, ◌∙◌, arith, All, All-append, ℕ, ◌==◌, if◌then◌else◌, [], ◌∷◌, ◌++◌, Bytes,
  bytes,
}

-- labelReplacer on one byte; the three old strings are single bytes.
pub escape_byte : ℕ → Bytes
escape_byte c =
    if c == b'\\'
    then bytes "\\\\"
    else if c == b'"'
    then bytes "\\\""
    else if c == b'\n'
    then bytes "\\n"
    else c ∷ []

-- escapeLabel
unfoldable pub escape_label : Bytes → Bytes
unfolding escape_byte
escape_label [] = []
escape_label (c ∷ s) = escape_byte c ++ escape_label s

-- What a reader of the Prometheus text makes of a label value, where a backslash is followed by the
-- byte that it stands before.
pub unescape_byte : ℕ → ℕ
unescape_byte c = if c == b'n' then b'\n' else c

pub unescape : Bytes → Bytes
unescape [] = []
unescape (c ∷ []) = c ∷ []
unescape (c ∷ d ∷ s) =
    let pair = unescape_byte d ∷ unescape s in
    let one = c ∷ unescape (d ∷ s) in if c == b'\\' then pair else one

unescape-escape_byte : (c : ℕ) (s : Bytes) → unescape (escape_byte c ++ s) ≡ c ∷ unescape s
unfolding unescape escape_byte unescape_byte
unescape-escape_byte c [] = ground arith
unescape-escape_byte c (d ∷ s) = ground arith

escape_byte-one_line : (c : ℕ) → All (λ d. d ≢ b'\n') (escape_byte c)
unfolding escape_byte
escape_byte-one_line c = ground arith

-- An escaped label is read back as the label.
pub unescape-escape_label : (s : Bytes) → unescape (escape_label s) ≡ s
unfolding escape_label
unescape-escape_label [] = unfold unescape in refl
unescape-escape_label (c ∷ s) =
    unescape-escape_byte c (escape_label s) ∙ ap (λ r. c ∷ r) (unescape-escape_label s)

-- An escaped label holds no line break.
pub escape_label-one_line : (s : Bytes) → All (λ d. d ≢ b'\n') (escape_label s)
unfolding escape_label
escape_label-one_line [] = tt
escape_label-one_line (c ∷ s) =
    All-append _ (escape_byte c) _ (escape_byte-one_line c) (escape_label-one_line s)
