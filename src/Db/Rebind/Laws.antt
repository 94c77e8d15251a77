-- ===== src/Db/Rebind/Laws.antt =====
-- internal/db/db.go: the placeholders of a rebound query.
use stackd.Base.{
  ℕ, ◌+◌, ◌≡◌, ◌≢◌, refl, ap, ◌∙◌, List, [], ◌∷◌, ◌++◌, append-nil, arith, Bytes, bytes, All, join,
  decimal,
}
use stackd.Db.Rebind.{sqlite, postgres, number_from, rebind}

-- The pieces of a query, with the placeholder $n and its successors between them.
pub weave : ℕ → List Bytes → Bytes
weave n [] = []
weave n (p ∷ []) = p
weave n (p ∷ q ∷ ps) = p ++ (bytes "$" ++ (decimal n ++ weave (n + 1) (q ∷ ps)))

abbrev pub HasNoMark : Bytes → Type 0
HasNoMark = All (λ c. c ≢ b'?')

number_from-append :
    (n : ℕ) (p rest : Bytes) → HasNoMark p → number_from n (p ++ rest) ≡ p ++ number_from n rest
unfolding number_from
number_from-append n [] rest h = refl
number_from-append n (c ∷ p) rest (d, h) = ground (arith, number_from-append n p rest h)

number_from-mark :
    (n : ℕ) (rest : Bytes)
    → number_from n (b'?' ∷ rest) ≡ bytes "$" ++ (decimal n ++ number_from (n + 1) rest)
unfolding number_from
number_from-mark n rest = refl

number_from-nil : (n : ℕ) → number_from n [] ≡ []
unfolding number_from
number_from-nil n = refl

number_from-weave :
    (n : ℕ) (ps : List Bytes) → All HasNoMark ps → number_from n (join (bytes "?") ps) ≡ weave n ps
unfolding join weave
number_from-weave n [] h = number_from-nil n
number_from-weave n (p ∷ []) (h, _) =
    rw (← append-nil p) (number_from-append n p [] h ∙ ap (λ r. p ++ r) (number_from-nil n))
number_from-weave n (p ∷ q ∷ ps) (h, k) =
    number_from-append n p _ h
    ∙ ap (λ r. p ++ r)
        (number_from-mark n _
          ∙ ap (λ r. bytes "$" ++ (decimal n ++ r)) (number_from-weave (n + 1) (q ∷ ps) k))

-- A Postgres query has the placeholders $1, $2, … in order where the query has its marks, and is
-- the same elsewhere; a SQLite query is unchanged.
pub rebind-weave :
    (ps : List Bytes)
    → All HasNoMark ps
    → (rebind postgres (join (bytes "?") ps) ≡ weave 1 ps)
      × (rebind sqlite (join (bytes "?") ps) ≡ join (bytes "?") ps)
unfolding rebind
rebind-weave ps h = (number_from-weave 1 ps h, refl)
