-- ===== src/Cents/Exact.antt =====
-- `toCents` against amounts that fit an int64 number of cents and amounts that do not.
use borges_labs.Base.{
  ℕ, zero, suc, ◌+◌, ◌-◌, ◌*◌, ◌/◌, ◌%◌, ◌≤◌, ◌<◌, ◌≡◌, refl, ap, ◌∙◌, ◌≢◌, none, some, [], ◌∷◌,
  ◌++◌, Str, str, arith, i64_half, u64_mod, pos, negsuc, add64_pos, mul64, mul64_pos, scale, wrap64,
  quot, rem,
}
use borges_labs.Predicate.Money.{read_digits}
use borges_labs.Cents.{
  to_cents, cents_to_str, format_int, parse_int, pad2, with_frac, frac_cents, add_frac, digits_of,
}
use borges_labs.Cents.Format.{
  IsDigits, cut_dot-dot, cut_dot-IsDigits, parse_int-format_int, parse_int-IsDigits,
  format_int-IsDigits,
}

-- What `toCents` does with digits, and with digits, a dot and a fraction.
to_cents_dotted :
    (s t : Str) → IsDigits s → s ≢ [] → to_cents (s ++ b'.' ∷ t) ≡ with_frac (parse_int s) (some t)
unfolding to_cents
to_cents_dotted [] t h k = absurd (k refl)
to_cents_dotted (c ∷ s) t h k = ground (arith, cut_dot-dot (c ∷ s) t h)

to_cents_whole : (s : Str) → IsDigits s → s ≢ [] → to_cents s ≡ with_frac (parse_int s) none
unfolding to_cents
to_cents_whole [] h k = absurd (k refl)
to_cents_whole (c ∷ s) h k = ground (arith, cut_dot-IsDigits (c ∷ s) h)

-- Two digits of cents.
two_digits : ℕ → Str
two_digits r = (b'0' + r / 10) ∷ (b'0' + r % 10) ∷ []

digits_of-digit :
    (fuel m : ℕ) (rest : Str) → 0 < fuel → m < 10 → digits_of fuel m rest ≡ (b'0' + m) ∷ rest
unfolding digits_of
digits_of-digit zero m rest h k = absurd (omega arith)
digits_of-digit (suc fuel) m rest h k = ground arith

pad2-two_digits : (r : ℕ) → r < 100 → pad2 (pos r) ≡ two_digits r
unfolding pad2 format_int digits_of two_digits
pad2-two_digits r h = ground (arith, digits_of-digit r (r / 10) ((b'0' + r % 10) ∷ []))

frac_cents-two_digits : (r : ℕ) → r < 100 → frac_cents (two_digits r) ≡ some (pos r)
unfolding frac_cents two_digits read_digits
frac_cents-two_digits r h =
    parse_int-IsDigits (two_digits r) r (ground arith, (ground arith, tt)) (λ e. cc) (ground arith)
      (omega arith)

-- Every amount of cents that an int64 holds is printed as a text that reads back as itself.
pub to_cents-cents_to_str : (c : ℕ) → c < i64_half → to_cents (cents_to_str (pos c)) ≡ some (pos c)
unfolding cents_to_str quot rem with_frac add_frac
to_cents-cents_to_str c h =
    ap (λ t. to_cents (format_int (pos (c / 100)) ++ (str "." ++ t)))
      (pad2-two_digits (c % 100) (omega arith))
    ∙ to_cents_dotted (format_int (pos (c / 100))) (two_digits (c % 100))
        (format_int-IsDigits (c / 100)).0 (format_int-IsDigits (c / 100)).1
    ∙ rw
        (
          parse_int-format_int (c / 100) (omega arith),
          frac_cents-two_digits (c % 100) (omega arith),
          mul64_pos (c / 100) 100 (omega arith),
          add64_pos (c / 100 * 100) (c % 100) (omega arith),
        )
        (ap (λ n. some (pos n)) (omega arith))

-- A whole amount whose cents fit an int64 is read exactly.
pub to_cents_exact :
    (s : Str) (n : ℕ)
    → IsDigits s
    → s ≢ []
    → read_digits 0 s ≡ some n
    → n * 100 < i64_half
    → to_cents s ≡ some (pos (n * 100))
unfolding with_frac
to_cents_exact s n h k e l =
    to_cents_whole s h k ∙ rw (parse_int-IsDigits s n h k e (omega arith), mul64_pos n 100 l)

-- An amount of n units whose cents do not fit, between 2^63 and 2^64 cents, is accepted and read
-- as a negative number of cents, 2^64 below the true one.
pub to_cents_overflow :
    (s : Str) (n : ℕ)
    → IsDigits s
    → s ≢ []
    → read_digits 0 s ≡ some n
    → i64_half ≤ n * 100
    → n * 100 < u64_mod
    → to_cents s ≡ some (negsuc (u64_mod - n * 100 - 1))
unfolding with_frac mul64 scale wrap64
to_cents_overflow s n h k e l m =
    to_cents_whole s h k ∙ rw (parse_int-IsDigits s n h k e (omega arith)) (ground arith)
