-- ===== src/Skew.antt =====
-- The timestamp of a request and its distance from the clock (services/authorize-svc/internal/auth/
-- auth.go, verifySignature), with the parts of Go's library that it calls: strconv.ParseInt,
-- time.Unix, Time.Sub, each with its int64.
pub mod Within
use borges_labs.Base.{
  ℕ, ◌+◌, ◌-◌, ◌*◌, ℤ, pos, negsuc, ◌-ℤ◌, ◌+ℤ◌, ltb_ℤ, wrap64, sub64, scale, neg_of, Bool, true,
  false, ◌&&◌, Option, none, some, [], ◌∷◌, Str, ltb, leb, ◌==◌, if◌then◌else◌, i64_half,
}
use borges_labs.Clock.{Time}

-- The digits of `strconv.ParseInt`, onto what is read so far.
unfoldable pub parse_digits : ℕ → Str → Option ℕ
parse_digits n [] = some n
parse_digits n (c ∷ s) =
    let rest = parse_digits (n * 10 + (c - 48)) s in if leb 48 c && leb c 57 then rest else none

abbrev pub in_int64 : Bool → Option ℕ → Option ℤ
in_int64 negative none = none
in_int64 true (some n) = if leb n i64_half then some (neg_of n) else none
in_int64 false (some n) = if ltb n i64_half then some (pos n) else none

abbrev pub read_digits : Bool → Str → Option ℤ
read_digits negative [] = none
read_digits negative (c ∷ s) = in_int64 negative (parse_digits 0 (c ∷ s))

-- `strconv.ParseInt(s, 10, 64)`
unfoldable pub parse_int : Str → Option ℤ
parse_int [] = none
parse_int (c ∷ s) =
    if c == 45
    then read_digits true s
    else if c == 43
    then read_digits false s
    else read_digits false (c ∷ s)

-- `time.Unix(secs, 0)`, whose count of seconds is an int64 from the year 1 on, in nanoseconds.
unfoldable pub time_unix : ℤ → ℤ
time_unix secs = scale (wrap64 (secs +ℤ pos 62135596800)) 1000000000

-- `t.Sub(u)`, which stays in the range of a duration.
unfoldable pub sub_time : ℤ → ℤ → ℤ
sub_time t u =
    let d = t -ℤ u in
    if ltb_ℤ d (negsuc 9223372036854775807)
    then negsuc 9223372036854775807
    else if ltb_ℤ (pos 9223372036854775807) d
    then pos 9223372036854775807
    else d

-- The skew, and its sign removed by an int64 negation.
unfoldable pub skew_of : Time → ℤ → ℤ
skew_of now secs =
    let skew = sub_time (pos now) (time_unix secs) in
    if ltb_ℤ skew (pos 0) then sub64 (pos 0) skew else skew
