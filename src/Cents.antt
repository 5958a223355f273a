-- ===== src/Cents.antt =====
-- Money in minor units, and the windows of a budget
-- (services/authorize-svc/internal/budget/budget.go). Counters are int64 values; a decimal is
-- read by `strings.Cut` and `strconv.ParseInt`.
pub mod Format
pub mod Exact
use borges_labs.Base.{
  ℕ, zero, suc, ◌+◌, ◌-◌, ◌/◌, ◌%◌, Bool, true, false, not, Option, none, some, [], ◌∷◌, ◌++◌, Str,
  str, str_eq, ltb, leb, ◌==◌, if◌then◌else◌, ℤ, pos, negsuc, neg_of, quot, rem, add64, mul64,
  ltb_ℤ,
}
use borges_labs.Clock.{Time, Platform}
use borges_labs.Predicate.Money.{read_digits, cut_dot}

unfoldable pub counter_key : Str → Str → Str → Str
counter_key org budget_id window_key =
    str "budget:" ++ (org ++ (str ":" ++ (budget_id ++ (str ":" ++ window_key))))

unfoldable pub window_key : Platform → Str → Time → Str
window_key platform window t =
    if str_eq window (str "day")
    then platform.format_day t
    else if str_eq window (str "rolling")
    then str "rolling"
    else platform.format_month t

-- 48 hours, 30 days, 32 days.
unfoldable pub window_ttl : Str → ℕ
window_ttl window =
    if str_eq window (str "day")
    then 172800000000000
    else if str_eq window (str "rolling")
    then 2592000000000000
    else 2764800000000000

unfoldable pub window_sticky : Str → Bool
window_sticky window = not (str_eq window (str "rolling"))

-- `strconv.ParseInt(s, 10, 64)` on the digits behind a sign: out of range is an error.
signed : Bool → Option ℕ → Option ℤ
signed negative none = none
signed true (some n) = if leb n 9223372036854775808 then some (neg_of n) else none
signed false (some n) = if ltb n 9223372036854775808 then some (pos n) else none

-- The digits of `ParseInt`; an empty run is an error.
digits : Str → Option ℕ
digits [] = none
digits (c ∷ s) = read_digits 0 (c ∷ s)

unfoldable pub parse_int : Str → Option ℤ
unfolding signed digits read_digits
parse_int [] = none
parse_int (c ∷ s) =
    if c == b'-'
    then signed true (digits s)
    else if c == b'+'
    then signed false (digits s)
    else signed false (digits (c ∷ s))

-- The fraction: one or two characters, one is padded.
frac_cents : Str → Option ℤ
frac_cents [] = none
frac_cents (a ∷ []) = parse_int (a ∷ b'0' ∷ [])
frac_cents (a ∷ b ∷ []) = parse_int (a ∷ b ∷ [])
frac_cents (a ∷ b ∷ c ∷ s) = none

add_frac : ℤ → Option ℤ → Option ℤ
add_frac cents none = none
add_frac cents (some f) = some (add64 cents f)

-- The part of `toCents` behind the whole units.
with_frac : Option ℤ → Option Str → Option ℤ
with_frac none frac = none
with_frac (some whole) none = some (mul64 whole 100)
with_frac (some whole) (some frac) = add_frac (mul64 whole 100) (frac_cents frac)

-- `toCents`; `none` is the code's `ok = false`.
unfoldable pub to_cents : Str → Option ℤ
unfolding with_frac add_frac frac_cents parse_int cut_dot
to_cents [] = none
to_cents (c ∷ s) =
    if c == b'-' then none else with_frac (parse_int (cut_dot (c ∷ s)).0) (cut_dot (c ∷ s)).1

-- The decimal digits of a number, last digit first, on fuel; the fuel `suc n` is enough for n.
unfoldable pub digits_of : ℕ → ℕ → Str → Str
digits_of zero n rest = rest
digits_of (suc fuel) n rest =
    let more = digits_of fuel (n / 10) ((b'0' + n % 10) ∷ rest) in
    if ltb n 10 then (b'0' + n) ∷ rest else more

-- `strconv.FormatInt(n, 10)`
unfoldable pub format_int : ℤ → Str
unfolding digits_of
format_int (pos n) = digits_of (suc n) n []
format_int (negsuc n) = b'-' ∷ digits_of (suc (suc n)) (suc n) []

unfoldable pub pad2 : ℤ → Str
unfolding format_int
pad2 n = if ltb_ℤ n (pos 10) then str "0" ++ format_int n else format_int n

unfoldable pub cents_to_str : ℤ → Str
unfolding format_int pad2 quot rem
cents_to_str c = format_int (quot c 100) ++ (str "." ++ pad2 (rem c 100))
