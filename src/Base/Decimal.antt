-- ===== src/Base/Decimal.antt =====
-- Numbers as decimal text: `%d` and strconv.Itoa on natural numbers, and strconv.Atoi.
use Prim.Native.Nat.{ℕ, zero, suc, ◌+◌, ◌-◌, ◌*◌, ◌/◌, ◌%◌, ◌^◌, ◌<◌}
use mathlib.Core.Path.{◌≡◌, refl}
use mathlib.Core.Logic.{inl, inr, ◌≢◌}
use mathlib.Core.Bool.{true}
use mathlib.Core.List.{[], ◌∷◌, ◌++◌}
use mathlib.Core.Option.{Option, none, some}
use native.Mathlib.Omega.{arith}
use stackd.Base.Tests.{ltb, ◌==◌, if◌then◌else◌, Bool-cases}
use stackd.Base.Ints.{ℤ, pos, sub_ℕ}
use stackd.Base.Lists.{All, All-append}
use stackd.Base.Text.{Bytes, is_digit}

-- The decimal digits of a number, as `%d` prints it; a number has fewer digits than its successor.
unfoldable pub decimal_fuel : ℕ → ℕ → Bytes
decimal_fuel zero n = []
decimal_fuel (suc fuel) n =
    let more = decimal_fuel fuel (n / 10) ++ (b'0' + n % 10) ∷ [] in
    if ltb n 10 then (b'0' + n) ∷ [] else more

unfoldable pub decimal : ℕ → Bytes
unfolding decimal_fuel
decimal n = decimal_fuel (suc n) n

-- The number that a text of digits stands for, behind the digits read before.
unfoldable pub digits_value : ℕ → Bytes → Option ℕ
digits_value n [] = some n
digits_value n (c ∷ s) =
    let rest = digits_value (n * 10 + (c - b'0')) s in if is_digit c then rest else none

abbrev pub unsigned_value : Bytes → Option ℕ
unsigned_value [] = none
unsigned_value (c ∷ s) = digits_value 0 (c ∷ s)

-- A value in range of int, which has 64 bits.
abbrev pub in_range : ℕ → Option ℕ → Option ℕ
in_range limit none = none
in_range limit (some n) = if ltb n limit then some n else none

abbrev pub as_pos : Option ℕ → Option ℤ
as_pos none = none
as_pos (some n) = some (pos n)

abbrev pub as_neg : Option ℕ → Option ℤ
as_neg none = none
as_neg (some n) = some (sub_ℕ 0 n)

-- strconv.Atoi, `none` where it returns an error.
unfoldable pub atoi : Bytes → Option ℤ
unfolding digits_value
atoi [] = none
atoi (c ∷ s) =
    if c == b'-'
    then as_neg (in_range (2 ^ 63 + 1) (unsigned_value s))
    else if c == b'+'
    then as_pos (in_range (2 ^ 63) (unsigned_value s))
    else as_pos (in_range (2 ^ 63) (unsigned_value (c ∷ s)))

digits_value-append :
    (n c m : ℕ) (s : Bytes)
    → digits_value n s ≡ some m
    → is_digit c ≡ true
    → digits_value n (s ++ c ∷ []) ≡ some (m * 10 + (c - b'0'))
unfolding digits_value
digits_value-append n c m [] h d = ground arith
digits_value-append n c m (e ∷ s) h d =
    ground (arith, digits_value-append (n * 10 + (e - b'0')) c m s)

digits_value-one : (n : ℕ) → n < 10 → digits_value 0 ((b'0' + n) ∷ []) ≡ some n
unfolding digits_value
digits_value-one n h = ground arith

digits_value-more :
    (n : ℕ) (s : Bytes)
    → digits_value 0 s ≡ some (n / 10)
    → digits_value 0 (s ++ (b'0' + n % 10) ∷ []) ≡ some n
digits_value-more n s h =
    rw (digits_value-append 0 (b'0' + n % 10) (n / 10) s h (ground arith)) (ground arith)

-- The digits of a number: there are some, all are digits, and they stand for it.
digits_value-decimal_fuel : (f n : ℕ) → n < f → digits_value 0 (decimal_fuel f n) ≡ some n
unfolding decimal_fuel
digits_value-decimal_fuel zero n h = absurd (omega arith)
digits_value-decimal_fuel (suc f) n h = elim (Bool-cases (ltb n 10)) [
  | inl e ↦ rw e (digits_value-one n (ground arith))
  | inr e ↦ rw e (digits_value-more n _ (digits_value-decimal_fuel f (n / 10) (ground arith)))
]

concat-ne-nil : (c : ℕ) (s : Bytes) → s ++ c ∷ [] ≢ []
concat-ne-nil c [] = λ e. cc
concat-ne-nil c (d ∷ s) = λ e. cc

decimal-ne-nil : (n : ℕ) → decimal n ≢ []
unfolding decimal
decimal-ne-nil n = elim (Bool-cases (ltb n 10)) [
  | inl e ↦ rw e (λ p. cc)
  | inr e ↦ rw e (concat-ne-nil _ _)
]

pub digits_value-decimal : (n : ℕ) → digits_value 0 (decimal n) ≡ some n
unfolding decimal
digits_value-decimal n = digits_value-decimal_fuel (suc n) n (omega arith)

atoi-digits :
    (n : ℕ) (s : Bytes) → s ≢ [] → digits_value 0 s ≡ some n → n < 2 ^ 63 → atoi s ≡ some (pos n)
unfolding atoi
atoi-digits n [] h e l = absurd (h refl)
atoi-digits n (c ∷ s) h e l = ground arith

-- Atoi reads back what was printed of a number that an int holds.
pub atoi-decimal : (n : ℕ) → n < 2 ^ 63 → atoi (decimal n) ≡ some (pos n)
atoi-decimal n l = atoi-digits n (decimal n) (decimal-ne-nil n) (digits_value-decimal n) l

decimal_fuel-digits : (f n : ℕ) → All (λ c. is_digit c ≡ true) (decimal_fuel f n)
unfolding decimal_fuel
decimal_fuel-digits zero n = tt
decimal_fuel-digits (suc f) n = elim (Bool-cases (ltb n 10)) [
  | inl e ↦ rw e (ground arith, tt)
  | inr e ↦ rw e (
      All-append (λ c. is_digit c ≡ true) (decimal_fuel f (n / 10)) _
        (decimal_fuel-digits f (n / 10)) (ground arith, tt))
]

-- Every byte of a number's text is a digit.
pub decimal-digits : (n : ℕ) → All (λ c. is_digit c ≡ true) (decimal n)
unfolding decimal
decimal-digits n = decimal_fuel-digits (suc n) n
