-- ===== src/RateLimit.antt =====
-- Rate limiting per key (services/authorize-svc/internal/ratelimit/ratelimit.go): the tiers, and
-- the in-memory limiter with its two layers, whose mutex makes a call one step. The ceilings of
-- a tier are not negative and the clock is not before 1970.
pub mod Bound
use borges_labs.Base.{
  ℕ, suc, ◌-◌, ◌*◌, ◌/◌, ◌%◌, Bool, true, false, Option, none, some, [], ◌∷◌, Str, str, ltb, ◌==◌,
  if◌then◌else◌, Dict, lookup, insert,
}
use borges_labs.Clock.{Time, second}

-- A ceiling of 0 disables its layer.
pub record Limits : Type 0 where
  pub per_minute : ℕ
  pub per_second : ℕ

-- `no_scope` is the empty text of a decision that allows.
pub data Scope : Type 0 where
  no_scope window burst : Scope

pub record LimitDecision : Type 0 where
  pub allowed : Bool
  pub retry_after : ℕ
  pub scope : Scope
  pub limit : ℕ
  pub remaining : ℕ

abbrev pub Tiers : Type 0
Tiers = Dict Limits

abbrev pub default_tiers : Tiers
default_tiers =
    (str "default", record { per_minute = 60; per_second = 10 })
    ∷ (str "pro", record { per_minute = 600; per_second = 50 })
    ∷ (str "free", record { per_minute = 20; per_second = 5 })
    ∷ []

-- `TierTable.Resolve`
unfoldable pub resolve_tier : Tiers → Str → Limits
resolve_tier tiers tier = elim (lookup tier tiers) [
  | some l ↦ l
  | none ↦ elim (lookup (str "default") tiers) [
    | some l ↦ l
    | none ↦ record { per_minute = 60; per_second = 10 }
  ]
]

-- `t.Unix()`: the seconds since 1970.
unfoldable pub unix : Time → ℕ
unix t = t / second - 62135596800

unfoldable pub retry_after_for_minute : Time → ℕ
unfolding unix
retry_after_for_minute now = (60 - unix now % 60) * second

-- `counter`: the index of a window and the calls in it.
pub record Window : Type 0 where
  pub epoch : ℕ
  pub count : ℕ

abbrev pub Windows : Type 0
Windows = Dict Window

-- The count after one more call in an epoch.
abbrev pub next_count : Option Window → ℕ → ℕ
next_count none epoch = 1
next_count (some c) epoch = if c.epoch == epoch then suc c.count else 1

unfoldable pub hit : Windows → Str → ℕ → ℕ × Windows
hit m key epoch =
    let n = next_count (lookup key m) epoch in
    (n, insert key (record { epoch = epoch; count = n }) m)

-- The interface `Limiter`, at a reading of its clock; `none` is the error of a store that runs
-- elsewhere.
pub record Limiter (L : Type 0) : Type 0 where
  pub allow : Str → Limits → L → Option LimitDecision × L

-- The state of `MemLimiter`: the minutes, and the seconds.
abbrev pub MemLimiter : Type 0
MemLimiter = Windows × Windows

-- The second layer of `Allow`, which is reached where the first lets the call pass.
unfoldable pub allow_window : Time → Str → Limits → MemLimiter → LimitDecision × MemLimiter
unfolding hit
allow_window now key lim (windows, bursts) =
    let step = hit windows key (unix now / 60) in
    if ltb 0 lim.per_minute
    then (
      if ltb lim.per_minute step.0
          then record {
            allowed = false;
            retry_after = retry_after_for_minute now;
            scope = window;
            limit = lim.per_minute;
            remaining = 0;
          }
          else record {
            allowed = true;
            retry_after = 0;
            scope = no_scope;
            limit = lim.per_minute;
            remaining = lim.per_minute - step.0;
          },
      (step.1, bursts),
    )
    else (
      record { allowed = true; retry_after = 0; scope = no_scope; limit = 0; remaining = 0 },
      (windows, bursts),
    )

-- `MemLimiter.Allow`
unfoldable pub allow : Time → Str → Limits → MemLimiter → LimitDecision × MemLimiter
unfolding allow_window hit
allow now key lim (windows, bursts) =
    let step = hit bursts key (unix now) in
    if ltb 0 lim.per_second
    then (if ltb lim.per_second step.0
        then (
          record {
            allowed = false;
            retry_after = second;
            scope = burst;
            limit = lim.per_second;
            remaining = 0;
          },
          (windows, step.1),
        )
        else allow_window now key lim (windows, step.1))
    else allow_window now key lim (windows, bursts)

abbrev pub mem_limiter : Time → Limiter MemLimiter
mem_limiter now = record {
  allow = λ key lim l. (some (allow now key lim l).0, (allow now key lim l).1);
}
