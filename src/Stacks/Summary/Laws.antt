-- ===== src/Stacks/Summary/Laws.antt =====
-- main.go: what the summary of a failed command shows.
use stackd.Base.{
  ℕ, ◌≤◌, ◌-◌, ◌≡◌, ◌≢◌, ◌⊎◌, inl, inr, refl, Bool-cases, List, [], ◌∷◌, ◌++◌, take, drop, length,
  length-drop, ltb, arith, Bytes, bytes, join, zero, suc, ap,
}
use stackd.Stacks.Summary.{max_lines, meaningful_lines, last_lines, extract_error_summary}

take-drop : (n : ℕ) (xs : List Bytes) → take n xs ++ drop n xs ≡ xs
take-drop zero xs = refl
take-drop (suc n) [] = refl
take-drop (suc n) (x ∷ xs) = ap (λ ys. x ∷ ys) (take-drop n xs)

-- The last lines of a text: a tail of its lines, all of them where they are at most five and
-- otherwise exactly five.
pub record IsTail (lines tail : List Bytes) : Type 0 where
  pub before : List Bytes
  pub split : before ++ tail ≡ lines
  pub few : length tail ≤ max_lines
  pub all_of_few : length lines ≤ max_lines → tail ≡ lines
  pub five_of_many : max_lines ≤ length lines → length tail ≡ max_lines

last_lines-IsTail : (lines : List Bytes) → IsTail lines (last_lines lines)
unfolding last_lines
last_lines-IsTail lines = elim (Bool-cases (ltb max_lines (length lines))) [
  | inl e ↦ rw e (record {
    before = take (length lines - max_lines) lines;
    split = take-drop (length lines - max_lines) lines;
    few = rw length-drop (ground arith);
    all_of_few = λ h. ground arith;
    five_of_many = λ h. rw length-drop (ground arith);
  })
  | inr e ↦ rw e (record {
    before = [];
    split = refl;
    few = ground arith;
    all_of_few = λ h. refl;
    five_of_many = λ h. ground arith;
  })
]

-- The summary is the fallback where no line of the output has text, and else the last lines that
-- have text, five at most, joined by line breaks.
pub extract_error_summary_lem :
    (output fallback : Bytes)
    → ((meaningful_lines output ≡ []) × (extract_error_summary output fallback ≡ fallback))
      ⊎ ((meaningful_lines output ≢ [])
          × ((tail : List Bytes) × IsTail (meaningful_lines output) tail
              × (extract_error_summary output fallback ≡ join (bytes "\n") tail)))
unfolding extract_error_summary
extract_error_summary_lem output fallback = split (meaningful_lines output) refl
  where
    split :
        (ls : List Bytes)
        → meaningful_lines output ≡ ls
        → ((meaningful_lines output ≡ []) × (extract_error_summary output fallback ≡ fallback))
          ⊎ ((meaningful_lines output ≢ [])
              × ((tail : List Bytes) × IsTail (meaningful_lines output) tail
                  × (extract_error_summary output fallback ≡ join (bytes "\n") tail)))
    split [] e = inl (e, ground arith)
    split (l ∷ ls) e = inr (
      (λ q. ground arith),
      (last_lines (meaningful_lines output), last_lines-IsTail _, ground arith),
    )
