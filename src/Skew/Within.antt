-- ===== src/Skew/Within.antt =====
-- When a timestamp passes the check of its skew.
use borges_labs.Base.{
  ℕ, ◌+◌, ◌-◌, ◌*◌, ◌≤◌, ◌<◌, ◌≡◌, ◌↔◌, ◌⊎◌, ℤ, pos, negsuc, ◌-ℤ◌, ◌+ℤ◌, ltb_ℤ, wrap64, sub64,
  scale, true, false, arith, if◌then◌else◌, inl, inr,
}
use borges_labs.Skew.{time_unix, sub_time, skew_of}

-- The instant of a Unix time, in nanoseconds from the year 1 on.
abbrev pub instant_of : ℕ → ℕ
instant_of secs = (secs + 62135596800) * 1000000000

time_unix_pos :
    (secs : ℕ)
    → secs + 62135596800 < 9223372036854775808
    → time_unix (pos secs) ≡ pos (instant_of secs)
unfolding time_unix wrap64 scale ◌+ℤ◌
time_unix_pos secs h = ground arith

-- The skew, from the two instants.
abbrev gap : ℕ → ℕ → ℤ
gap now u =
    let skew = sub_time (pos now) (pos u) in if ltb_ℤ skew (pos 0) then sub64 (pos 0) skew else skew

gap_ahead :
    (now u : ℕ)
    → now < u
    → ((u < now + 9223372036854775808) × (gap now u ≡ pos (u - now)))
      ⊎ ((now + 9223372036854775808 ≤ u) × (gap now u ≡ negsuc 9223372036854775807))
unfolding sub_time sub64 ◌-ℤ◌ wrap64
gap_ahead now u h = ground arith

gap_behind :
    (now u : ℕ)
    → u ≤ now
    → (gap now u ≡ pos (now - u))
      ⊎ ((u + 9223372036854775807 ≤ now) × (gap now u ≡ pos 9223372036854775807))
unfolding sub_time sub64 ◌-ℤ◌ wrap64
gap_behind now u h = ground arith

compare_cases : (a b : ℕ) → (a < b) ⊎ (b ≤ a)
compare_cases a b = omega arith

near_iff :
    (now u most : ℕ) (g : ℤ)
    → most < 9223372036854775807
    → ((now < u)
        × (((u < now + 9223372036854775808) × (g ≡ pos (u - now)))
            ⊎ ((now + 9223372036854775808 ≤ u) × (g ≡ negsuc 9223372036854775807))))
      ⊎ ((u ≤ now)
          × ((g ≡ pos (now - u))
              ⊎ ((u + 9223372036854775807 ≤ now) × (g ≡ pos 9223372036854775807))))
    → (ltb_ℤ (pos most) g ≡ false)
      ↔ (((now ≤ u + most) × (u ≤ now + most)) ⊎ (now + 9223372036854775808 ≤ u))
near_iff now u most g h c = ground arith

gap_iff :
    (now u most : ℕ)
    → most < 9223372036854775807
    → (ltb_ℤ (pos most) (gap now u) ≡ false)
      ↔ (((now ≤ u + most) × (u ≤ now + most)) ⊎ (now + 9223372036854775808 ≤ u))
gap_iff now u most h = elim (compare_cases now u) [
  | inl ahead ↦ near_iff now u most (gap now u) h (inl (ahead, gap_ahead now u ahead))
  | inr behind ↦ near_iff now u most (gap now u) h (inr (behind, gap_behind now u behind))
]

skew_of_early :
    (now secs most : ℕ)
    → secs + 62135596800 < 9223372036854775808
    → most < 9223372036854775807
    → (ltb_ℤ (pos most) (skew_of now (pos secs)) ≡ false) ↔ (
        ((now ≤ instant_of secs + most) × (instant_of secs ≤ now + most))
        ⊎ (now + 9223372036854775808 ≤ instant_of secs))
unfolding skew_of
skew_of_early now secs most h k =
    rw (skew_of, time_unix_pos secs h) (gap_iff now (instant_of secs) most k)

-- Beyond that the seconds from the year 1 on wrap to a time long before it.
time_unix_wraps :
    (secs : ℕ)
    → 9223372036854775808 ≤ secs + 62135596800
    → secs < 9223372036854775808
    → (n : ℕ) × (9223372036854775807 ≤ n) × (time_unix (pos secs) ≡ negsuc n)
unfolding time_unix wrap64 scale ◌+ℤ◌
time_unix_wraps secs h k = (
  (18446744073709551616 - (secs + 62135596800)) * 1000000000 - 1,
  omega (arith, h, k),
  ground arith,
)

gap_wrapped :
    (now n : ℕ)
    → 9223372036854775807 ≤ n
    → (let skew = sub_time (pos now) (negsuc n) in
        if ltb_ℤ skew (pos 0) then sub64 (pos 0) skew else skew)
      ≡ pos 9223372036854775807
unfolding sub_time ◌-ℤ◌
gap_wrapped now n h = ground arith

skew_of_late :
    (now secs most : ℕ)
    → 9223372036854775808 ≤ secs + 62135596800
    → secs < 9223372036854775808
    → most < 9223372036854775807
    → ltb_ℤ (pos most) (skew_of now (pos secs)) ≡ true
unfolding skew_of
skew_of_late now secs most h k m =
    let (n, far, e) = time_unix_wraps secs h k in
    rw (skew_of, e, gap_wrapped now n far) (ground arith)

-- With an allowed distance below 2^63 - 1 nanoseconds, a timestamp of seconds since 1970, not
-- negative and an int64, passes the check of the skew exactly when its seconds from the year 1 on
-- are an int64 too and it is within the allowed distance of the clock on either side, or 2^63
-- nanoseconds or more ahead of the clock.
pub skew_of_iff :
    (now secs most : ℕ)
    → secs < 9223372036854775808
    → most < 9223372036854775807
    → (ltb_ℤ (pos most) (skew_of now (pos secs)) ≡ false) ↔ (
        (secs + 62135596800 < 9223372036854775808)
        × (((now ≤ instant_of secs + most) × (instant_of secs ≤ now + most))
            ⊎ (now + 9223372036854775808 ≤ instant_of secs)))
skew_of_iff now secs most h k = elim (compare_cases (secs + 62135596800) 9223372036854775808) [
  | inl early ↦
      let (there, back) = skew_of_early now secs most early k in
      (λ passes. (early, there passes), λ r. back r.1)
  | inr late ↦ (
    λ passes. absurd (cc (skew_of_late now secs most late h k, passes)),
    λ r. absurd (omega (arith, r.0, late)),
  )
]
