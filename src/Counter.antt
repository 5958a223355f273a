-- ===== src/Counter.antt =====
-- The budget counter (services/authorize-svc/internal/budget/counter.go): the interface, and
-- the in-memory implementation, whose mutex makes each method one step on the map. An error of
-- a method is `none`, or `false` where the method returns nothing else.
pub mod NoOversell
use borges_labs.Base.{
  ℕ, Bool, true, false, Option, none, some, Str, if◌then◌else◌, ℤ, pos, add64, sub64, ltb_ℤ, Dict,
  lookup, insert,
}

pub record Counter (S : Type 0) : Type 0 where
  pub reserve : Str → ℤ → ℤ → ℕ → Bool → S → Option (Bool × ℤ) × S
  pub release : Str → ℤ → S → Bool × S
  pub set : Str → ℤ → ℕ → S → Bool × S
  pub get : Str → S → Option ℤ × S

-- `m.vals[key]`: the zero value on a missing key.
unfoldable pub value : Str → Dict ℤ → ℤ
value key vals = elim (lookup key vals) [ none ↦ pos 0 | some v ↦ v ]

unfoldable pub mem_reserve : Str → ℤ → ℤ → Dict ℤ → (Bool × ℤ) × Dict ℤ
mem_reserve key amount limit vals =
    let prior = value key vals in
    if ltb_ℤ limit (add64 prior amount)
    then ((false, prior), vals)
    else ((true, prior), insert key (add64 prior amount) vals)

unfoldable pub mem_release : Str → ℤ → Dict ℤ → Dict ℤ
mem_release key amount vals =
    let v = sub64 (value key vals) amount in insert key (if ltb_ℤ v (pos 0) then pos 0 else v) vals

unfoldable pub mem_set : Str → ℤ → Dict ℤ → Dict ℤ
mem_set key cents vals = insert key cents vals

abbrev pub mem_counter : Counter (Dict ℤ)
mem_counter = record {
  reserve = λ key amount limit ttl sticky vals.
      (some (mem_reserve key amount limit vals).0, (mem_reserve key amount limit vals).1);
  release = λ key amount vals. (true, mem_release key amount vals);
  set = λ key cents ttl vals. (true, mem_set key cents vals);
  get = λ key vals. (some (value key vals), vals);
}
