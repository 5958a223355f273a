-- ===== src/Predicate/Money.antt =====
-- `parseMoney` (services/authorize-svc/internal/engine/predicate.go), and what it uses of
-- big.Rat: the reading of a plain decimal and the comparison.
use borges_labs.Base.{
  ℕ, ◌+◌, ◌-◌, ◌*◌, ◌^◌, Bool, ◌&&◌, Option, none, some, [], ◌∷◌, ◌++◌, Str, leb, ◌==◌,
  if◌then◌else◌, ℤ, pos, neg_of, scale, ltb_ℤ, length, is_empty,
}
use borges_labs.Clock.{Rat, Platform}

abbrev pub is_digit : ℕ → Bool
is_digit c = leb b'0' c && leb c b'9'

-- The number that a run of digits stands for, after what has been read; `none` at another byte.
unfoldable pub read_digits : ℕ → Str → Option ℕ
read_digits n [] = some n
read_digits n (c ∷ s) =
    let rest = read_digits (n * 10 + (c - b'0')) s in if is_digit c then rest else none

-- `strings.Cut(s, ".")`: what stands before the first dot, and what stands after it.
unfoldable pub cut_dot : Str → Str × Option Str
cut_dot [] = ([], none)
cut_dot (c ∷ s) = let rest = cut_dot s in if c == b'.' then ([], some s) else (c ∷ rest.0, rest.1)

-- The digits of a decimal as one number over a power of ten; at least one digit is needed.
read_parts : Str → Option Str → Option (ℕ × ℕ)
read_parts whole none = elim (read_digits 0 whole) [
  | none ↦ none
  | some n ↦ if is_empty whole then none else some (n, 1)
]
read_parts whole (some frac) = elim (read_digits 0 (whole ++ frac)) [
  | none ↦ none
  | some n ↦ if is_empty (whole ++ frac) then none else some (n, 10 ^ length frac)
]

unfoldable pub read_decimal : Str → Option (ℕ × ℕ)
unfolding read_parts cut_dot read_digits
read_decimal s = let (whole, frac) = cut_dot s in read_parts whole frac

to_rat : (ℕ → ℤ) → Option (ℕ × ℕ) → Option Rat
to_rat sign none = none
to_rat sign (some (n, d)) = some (record { num = sign n; den = d })

-- A decimal with an optional sign.
plain_rat : Str → Option Rat
unfolding to_rat read_decimal
plain_rat [] = none
plain_rat (c ∷ s) =
    if c == b'-'
    then to_rat neg_of (read_decimal s)
    else if c == b'+'
    then to_rat pos (read_decimal s)
    else to_rat pos (read_decimal (c ∷ s))

-- `parseMoney`: `none` is the code's `ok = false`.
unfoldable pub parse_money : Platform → Str → Option Rat
unfolding plain_rat
parse_money platform s = elim (plain_rat s) [ some r ↦ some r | none ↦ platform.parse_other_rat s ]

-- `a.Cmp(b) > 0`, by cross multiplication.
unfoldable pub rat_gt : Rat → Rat → Bool
rat_gt a b = ltb_ℤ (scale b.num a.den) (scale a.num b.den)
