-- ===== src/Cents/Format.antt =====
-- The printing and reading of numbers.
use borges_labs.Base.{
  ℕ, zero, suc, ◌+◌, ◌*◌, ◌/◌, ◌%◌, ◌<◌, ◌≡◌, refl, ◌≢◌, none, some, [], ◌∷◌, ◌++◌, Str, arith, All,
  ltb, Bool-cases, inl, inr, true, pos, ltb→lt, i64_half, ◌∙◌, ap,
}
use borges_labs.Predicate.Money.{is_digit, read_digits, cut_dot}
use borges_labs.Cents.{digits_of, parse_int, format_int}

read_digit :
    (d : ℕ) (k : ℕ) (rest : Str)
    → d < 10
    → read_digits k ((b'0' + d) ∷ rest) ≡ read_digits (k * 10 + d) rest
unfolding read_digits
read_digit d k rest h = ground arith

-- Reading the digits of n, and then what follows them, is reading on after n.
pub read_digits-digits_of :
    (fuel n : ℕ) (rest : Str)
    → n < fuel
    → read_digits 0 (digits_of fuel n rest) ≡ read_digits n rest
unfolding digits_of
read_digits-digits_of zero n rest h = absurd (omega arith)
read_digits-digits_of (suc fuel) n rest h = elim (Bool-cases (ltb n 10)) [
  | inl small ↦
      rw small
        (read_digit n 0 rest (ltb→lt n 10 small) ∙ ap (λ k. read_digits k rest) (omega arith))
  | inr large ↦ rw large (
      read_digits-digits_of fuel (n / 10) ((b'0' + n % 10) ∷ rest) (ground arith)
      ∙ read_digit (n % 10) (n / 10) rest (omega arith)
      ∙ ap (λ k. read_digits k rest) (omega arith))
]

abbrev pub IsDigits : Str → Type 0
IsDigits s = All (λ c. is_digit c ≡ true) s

digits_of-IsDigits : (fuel n : ℕ) (rest : Str) → IsDigits rest → IsDigits (digits_of fuel n rest)
unfolding digits_of
digits_of-IsDigits zero n rest h = h
digits_of-IsDigits (suc fuel) n rest h = elim (Bool-cases (ltb n 10)) [
  | inl small ↦ rw small (ground arith, h)
  | inr large ↦
      rw large (digits_of-IsDigits fuel (n / 10) ((b'0' + n % 10) ∷ rest) (ground arith, h))
]

digits_of-ne-nil : (fuel n : ℕ) (rest : Str) → n < fuel → digits_of fuel n rest ≢ []
unfolding digits_of
digits_of-ne-nil zero n rest h e = absurd (omega arith)
digits_of-ne-nil (suc fuel) n rest h e =
    ground (arith, digits_of-ne-nil fuel (n / 10) ((b'0' + n % 10) ∷ rest))

-- `ParseInt` on a run of digits.
pub parse_int-IsDigits :
    (s : Str) (n : ℕ)
    → IsDigits s
    → s ≢ []
    → read_digits 0 s ≡ some n
    → n < i64_half
    → parse_int s ≡ some (pos n)
unfolding parse_int
parse_int-IsDigits [] n h k e l = absurd (k refl)
parse_int-IsDigits (c ∷ s) n h k e l = ground arith

-- `ParseInt` reads back what `FormatInt` prints, for every int64 that is not negative.
pub parse_int-format_int : (n : ℕ) → n < i64_half → parse_int (format_int (pos n)) ≡ some (pos n)
unfolding format_int
parse_int-format_int n h =
    parse_int-IsDigits (digits_of (suc n) n []) n (digits_of-IsDigits (suc n) n [] tt)
      (digits_of-ne-nil (suc n) n [] (omega arith))
      (read_digits-digits_of (suc n) n [] (omega arith) ∙ (unfold read_digits in refl)) h

pub format_int-IsDigits : (n : ℕ) → IsDigits (format_int (pos n)) × (format_int (pos n) ≢ [])
unfolding format_int
format_int-IsDigits n =
    (digits_of-IsDigits (suc n) n [] tt, digits_of-ne-nil (suc n) n [] (omega arith))

-- A run of digits is cut off at the dot that follows it, or whole.
pub cut_dot-dot : (s t : Str) → IsDigits s → cut_dot (s ++ b'.' ∷ t) ≡ (s, some t)
unfolding cut_dot
cut_dot-dot [] t h = refl
cut_dot-dot (c ∷ s) t h = ground (arith, cut_dot-dot s t h.1)

pub cut_dot-IsDigits : (s : Str) → IsDigits s → cut_dot s ≡ (s, none)
unfolding cut_dot
cut_dot-IsDigits [] h = refl
cut_dot-IsDigits (c ∷ s) h = ground (arith, cut_dot-IsDigits s h.1)
