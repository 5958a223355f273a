-- ===== src/Clock.antt =====
-- Instants, as the code reads them through Go's package time. An instant is the number of
-- nanoseconds since 1 January of year 1, 00:00 UTC, which is Go's zero time; what the code reads
-- off an instant (hour, minute, weekday, order) is computed. `Platform` holds the parts of Go's
-- standard library that read or print a text, as parameters: RFC 3339 times, and those forms of
-- a number that big.Rat accepts beyond a plain decimal.
use borges_labs.Base.{ℕ, ◌+◌, ◌/◌, ◌%◌, ℤ, Str, Option, Bool, ltb, ◌==◌}

abbrev pub Time : Type 0
Time = ℕ

abbrev pub second : ℕ
second = 1000000000

-- `t.IsZero()`
abbrev pub is_zero : Time → Bool
is_zero t = t == 0

-- `t.Before(u)`
abbrev pub before : Time → Time → Bool
before t u = ltb t u

-- `t.After(u)`
abbrev pub after : Time → Time → Bool
after t u = ltb u t

-- `t.Hour()*60 + t.Minute()`, in UTC
unfoldable pub minute_of_day : Time → ℕ
minute_of_day t = (t / 60000000000) % 1440

-- `int(t.Weekday())` with Sunday = 0: the first day of year 1 was a Monday
unfoldable pub weekday : Time → ℕ
weekday t = (t / 86400000000000 + 1) % 7

-- An exact number: numerator and positive denominator.
pub record Rat : Type 0 where
  pub num : ℤ
  pub den : ℕ

pub record Platform : Type 0 where
  -- `time.Parse(time.RFC3339, s)`, in UTC; `none` is its error
  pub parse_time : Str → Option Time
  -- `t.Format(time.RFC3339)`, of an instant in UTC
  pub format_time : Time → Str
  -- `t.Format("2006-01-02")` and `t.Format("2006-01")`
  pub format_day : Time → Str
  pub format_month : Time → Str
  -- `big.Rat.SetString` on what is no plain decimal: fractions, exponents, base prefixes
  pub parse_other_rat : Str → Option Rat
