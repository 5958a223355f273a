-- ===== src/RateLimit/Bound.antt =====
-- Histories of calls of the limiter.
use borges_labs.Base.{
  ℕ, suc, ◌+◌, ◌-◌, ◌/◌, ◌≤◌, ◌<◌, ◌≡◌, refl, ◌⊎◌, inl, inr, Bool, true, false, ◌&&◌, Option, none,
  some, List, [], ◌∷◌, Str, arith, ltb, ◌==◌, if◌then◌else◌, Bool-cases, lookup, lookup-insert,
  str_eq, str_eq_iff,
}
use borges_labs.Clock.{Time}
use borges_labs.RateLimit.{
  Limits, Window, Windows, MemLimiter, unix, next_count, hit, allow_window, allow,
}

-- A call: when, and for which key.
abbrev pub Call : Type 0
Call = Time × Str

-- The calls of a history with their answers, and the state after it.
unfoldable pub run : Limits → List Call → MemLimiter → List (Call × Bool) × MemLimiter
run lim [] l = ([], l)
run lim ((now, key) ∷ calls) l =
    let step = allow now key lim l in
    let rest = run lim calls step.1 in (((now, key), step.0.allowed) ∷ rest.0, rest.1)

-- How many calls for a key were allowed in an epoch.
unfoldable pub allowed_in : (Time → ℕ) → Str → ℕ → List (Call × Bool) → ℕ
allowed_in epoch_of k s [] = 0
allowed_in epoch_of k s (((now, key), ok) ∷ rest) =
    (if ok && (str_eq key k && (epoch_of now == s)) then 1 else 0) + allowed_in epoch_of k s rest

-- The clock does not run backwards.
abbrev pub IsOrdered : Time → List Call → Type 0
IsOrdered t [] = Unit
IsOrdered t ((now, key) ∷ calls) = (t ≤ now) × IsOrdered now calls

-- The calls that a window has counted in an epoch.
abbrev counted_in : ℕ → Option Window → ℕ
counted_in s none = 0
counted_in s (some c) = if c.epoch == s then c.count else 0

counted_in-hit :
    (m : Windows) (key k : Str) (u s : ℕ)
    → counted_in s (lookup k (hit m key u).1) ≡ (
        if str_eq key k then (if u == s then (hit m key u).0 else 0) else counted_in s (lookup k m))
unfolding hit
counted_in-hit m key k u s =
    rw (lookup-insert key k (record { epoch = u; count = next_count (lookup key m) u }) m)
      (ground arith)

hit-count :
    (m : Windows) (key k : Str) (u : ℕ)
    → str_eq key k ≡ true
    → (hit m key u).0 ≡ suc (counted_in u (lookup k m))
unfolding hit
hit-count m key k u e = ground (arith, (str_eq_iff key k).0 e)

-- What a call does to the count c of a key and an epoch: it is turned away before the layer
-- counts it, or it is counted, and allowed only within the ceiling.
abbrev Counts : ℕ → Bool → Bool → Bool → ℕ → ℕ → Type 0
Counts most ok same now c after =
    ((ok ≡ false) × (after ≡ c))
    ⊎ ((after ≡ (if same then (if now then suc c else 0) else c))
        × (((ok && (same && now)) ≡ false) ⊎ (after ≤ most)))

hit-Counts :
    (m : Windows) (key k : Str) (u s most : ℕ) (ok : Bool)
    → (ok ≡ false) ⊎ ((hit m key u).0 ≤ most)
    → Counts most ok
        (str_eq key k)
        (u == s)
        (counted_in s (lookup k m))
        (counted_in s (lookup k (hit m key u).1))
hit-Counts m key k u s most ok h = inr (
  ground (arith, counted_in-hit m key k u s, hit-count m key k u),
  ground (arith, counted_in-hit m key k u s, h),
)

module _ (lim : Limits) (now : Time) (key : Str) (l : MemLimiter) where
  allow-second :
      0 < lim.per_second
      → (k : Str) (s : ℕ)
      → Counts lim.per_second
          (allow now key lim l).0.allowed
          (str_eq key k)
          (unix now == s)
          (counted_in s (lookup k l.1))
          (counted_in s (lookup k (allow now key lim l).1.1))
  unfolding allow allow_window
  allow-second h k s = elim (Bool-cases (ltb lim.per_second (hit l.1 key (unix now)).0)) [
    | inl over ↦ ground (arith, hit-Counts l.1 key k (unix now) s lim.per_second false (inl refl))
    | inr within ↦
        ground (arith, hit-Counts l.1 key k (unix now) s lim.per_second true (inr (ground arith)))
  ]

  allow-minute :
      0 < lim.per_minute
      → (k : Str) (s : ℕ)
      → Counts lim.per_minute
          (allow now key lim l).0.allowed
          (str_eq key k)
          (unix now / 60 == s)
          (counted_in s (lookup k l.0))
          (counted_in s (lookup k (allow now key lim l).1.0))
  unfolding allow allow_window
  allow-minute h k s = elim (Bool-cases (ltb lim.per_minute (hit l.0 key (unix now / 60)).0)) [
    | inl over ↦
        ground (arith, hit-Counts l.0 key k (unix now / 60) s lim.per_minute false (inl refl))
    | inr within ↦
        ground
          (arith, hit-Counts l.0 key k (unix now / 60) s lim.per_minute true (inr (ground arith)))
  ]

unix_mono : (t u : Time) → t ≤ u → (unix t ≤ unix u) × (unix t / 60 ≤ unix u / 60)
unfolding unix
unix_mono t u h = (omega arith, omega arith)

module _ (lim : Limits) (epoch_of : Time → ℕ)
    (mono : (t u : Time) → t ≤ u → epoch_of t ≤ epoch_of u) where
  -- Once an epoch is over, no call is allowed in it.
  none_left :
      (calls : List Call) (t : Time) (l : MemLimiter) (k : Str) (s : ℕ)
      → IsOrdered t calls
      → s < epoch_of t
      → allowed_in epoch_of k s (run lim calls l).0 ≡ 0
  unfolding run allowed_in
  none_left [] t l k s a h = refl
  none_left ((now, key) ∷ calls) t l k s a h = ground (
    arith,
    mono t now a.0,
    none_left calls now (allow now key lim l).1 k s a.1 (omega (arith, mono t now a.0)),
  )

  within_loop :
      (most : ℕ) (of : MemLimiter → Windows)
      → ((now : Time) (key : Str) (l : MemLimiter) (k : Str) (s : ℕ)
          → Counts most
              (allow now key lim l).0.allowed
              (str_eq key k)
              (epoch_of now == s)
              (counted_in s (lookup k (of l)))
              (counted_in s (lookup k (of (allow now key lim l).1))))
      → (calls : List Call) (t : Time) (l : MemLimiter) (k : Str) (s : ℕ) → IsOrdered t calls
      → (counted_in s (lookup k (of l)) ≡ 0) ⊎ (s ≤ epoch_of t)
      → allowed_in epoch_of k s (run lim calls l).0 ≤ most - counted_in s (lookup k (of l))
  unfolding run allowed_in
  within_loop most of step [] t l k s a h = omega arith
  within_loop most of step ((now, key) ∷ calls) t l k s a h = ground (
    arith,
    mono t now a.0,
    step now key l k s,
    none_left calls now (allow now key lim l).1 k s a.1,
    within_loop most of step calls now (allow now key lim l).1 k s a.1,
  )

-- Where the clock does not run backwards and both ceilings are set, a fresh limiter allows a key
-- at most `per_second` calls in any second and at most `per_minute` in any minute, whatever the
-- other keys do.
pub run-within_limits :
    (lim : Limits) (calls : List Call) (t : Time) (k : Str) (s minute : ℕ)
    → 0 < lim.per_second
    → 0 < lim.per_minute
    → IsOrdered t calls
    → (allowed_in unix k s (run lim calls ([], [])).0 ≤ lim.per_second)
      × (allowed_in (λ now. unix now / 60) k minute (run lim calls ([], [])).0 ≤ lim.per_minute)
unfolding lookup
run-within_limits lim calls t k s minute h i a =
    let seconds =
      within_loop lim unix (λ t u h. (unix_mono t u h).0) lim.per_second (λ l. l.1)
        (λ now key l. allow-second lim now key l h) calls t ([], []) k s a (inl refl) in
    let minutes =
      within_loop lim (λ now. unix now / 60) (λ t u h. (unix_mono t u h).1) lim.per_minute
        (λ l. l.0) (λ now key l. allow-minute lim now key l i) calls t ([], []) k minute a
        (inl refl) in
    (omega (arith, seconds), omega (arith, minutes))
