-- ===== src/Reserver/Release.antt =====
-- Sweeps (`ReleaseExpired` of services/authorize-svc/internal/budget/reconcile.go) against counter
-- and ledger.

use borges_labs.Base.{
  ℕ, suc, ◌+◌, ◌<◌, ◌≡◌, refl, ap, ◌∙◌, inl, inr, ◌&&◌, some, List, [], ◌∷◌, Str, arith, ltb, leb,
  str_eq, str_eq_iff, str_eq_self, if◌then◌else◌, Bool-cases, i64_half, Dict, ℤ, pos, All,
}
use borges_labs.Clock.{Time}
use borges_labs.Cents.{to_cents}
use borges_labs.Counter.{mem_counter, value, mem_release}
use borges_labs.Hold.{Hold, Holds, is_due, mem_store, expire_due, expire_loop}
use borges_labs.Hold.Sums.{sum_released, Frees, sum_by-expire_loop}
use borges_labs.Reserver.{hold_key, give_back, give_back_all, release_expired}
use borges_labs.Reserver.Ledger.{read_cents, spent_at, spent, IsBalanced, mem_release_exact}

-- The amount of a hold can be read.
abbrev pub IsReadable : Hold → Type 0
IsReadable h = to_cents h.amount ≡ some (pos (read_cents (to_cents h.amount)))

abbrev pub cents : Hold → ℕ
cents h = read_cents (to_cents h.amount)

-- What a hold gives back to a key.
abbrev pub given : Str → Hold → ℕ
given k h = if str_eq (hold_key h) k then cents h else 0

give_back-readable :
    (clock : Time) (h : Hold) (a : ℕ) (vals : Dict ℤ)
    → to_cents h.amount ≡ some (pos a)
    → give_back mem_counter (mem_store clock) h vals ≡ mem_release (hold_key h) (pos a) vals
unfolding give_back
give_back-readable clock h a vals r = ground arith

-- Giving back one hold takes its cents off the counter of its key, and off no other.
pub give_back-lowers :
    (clock : Time) (h : Hold) (left : Str → ℕ) (vals : Dict ℤ)
    → IsReadable h
    → ((k : Str) → (value k vals ≡ pos (left k + given k h)) × (left k + given k h < i64_half))
    → (k : Str) → value k (give_back mem_counter (mem_store clock) h vals) ≡ pos (left k)
give_back-lowers clock h left vals r owed k =
    let a = cents h in
    let here = owed (hold_key h) in
    let v = left (hold_key h) + given (hold_key h) h in
    let own : given (hold_key h) h ≡ a = rw (str_eq_self (hold_key h)) refl in
    ap (value k) (give_back-readable clock h a vals r)
    ∙ mem_release_exact (hold_key h) k a v vals here.0 (omega (arith, own)) here.1
    ∙ elim (Bool-cases (str_eq (hold_key h) k)) [
      | inl same ↦
          rw same (ap pos (omega (arith, own) ∙ ap left ((str_eq_iff (hold_key h) k).0 same)))
      | inr differs ↦ ground (arith, owed k)
    ]

give_back_all_lem :
    (clock : Time) (hs : List Hold) (left : Str → ℕ) (vals : Dict ℤ)
    → All IsReadable hs
    → ((k : Str)
        → (value k vals ≡ pos (left k + sum_released (given k) hs))
          × (left k + sum_released (given k) hs < i64_half))
    → (k : Str) → value k (give_back_all mem_counter (mem_store clock) hs vals) ≡ pos (left k)
unfolding give_back_all sum_released
give_back_all_lem clock [] left vals a owed k = ground (arith, owed k)
give_back_all_lem clock (h ∷ hs) left vals a owed k =
    let rest : Str → ℕ = λ k. left k + sum_released (given k) hs in
    let lowered = give_back-lowers clock h rest vals a.0 (λ k. ground (arith, owed k)) in
    give_back_all_lem clock hs left _ a.1 (λ k. (lowered k, omega (arith, owed k))) k

expire_loop-IsReadable :
    (now : Time) (limit count : ℕ) (m : Holds)
    → All (λ (e : Str × Hold). IsReadable e.1) m
    → All IsReadable (expire_loop now limit count m).0
unfolding expire_loop
expire_loop-IsReadable now limit count [] a = tt
expire_loop-IsReadable now limit count ((k, h) ∷ m) a =
    elim (Bool-cases (ltb 0 limit && leb limit count)) [
      | inl full ↦ rw full tt
      | inr more ↦ elim (Bool-cases (is_due now h)) [
        | inl due ↦ rw (more, due) (a.0, expire_loop-IsReadable now limit (suc count) m a.1)
        | inr on_time ↦ rw (more, on_time) (expire_loop-IsReadable now limit count m a.1)
      ]
    ]

expire-Frees : (now : Time) (k : Str) (m : Holds) → All (Frees (spent_at k) (given k) now) m
unfolding is_due
expire-Frees now k [] = tt
expire-Frees now k ((j, h) ∷ m) = (λ d. ground arith, expire-Frees now k m)

-- Where counter and ledger are in step and the amounts in the ledger can be read, a sweep of at
-- most `batch` overdue holds gives back exactly what it expires: they are in step again.
pub release_expired-IsBalanced :
    (clock now : Time) (batch : ℕ) (vals : Dict ℤ) (m : Holds)
    → All (λ (e : Str × Hold). IsReadable e.1) m
    → IsBalanced (vals, m)
    → IsBalanced (release_expired mem_counter (mem_store clock) now batch (vals, m)).1
unfolding release_expired expire_due
release_expired-IsBalanced clock now batch vals m readable bal k =
    let swept = expire_loop now batch 0 m in
    let total : (k : Str) → spent k m ≡ spent k swept.1 + sum_released (given k) swept.0 =
      λ k. sum_by-expire_loop (spent_at k) (given k) now batch 0 m (expire-Frees now k m) in
    (
      give_back_all_lem clock swept.0 (λ k. spent k swept.1) vals
          (expire_loop-IsReadable now batch 0 m readable)
          (λ k. ((bal k).0 ∙ ap pos (total k), omega (arith, bal k, total k))) k,
      omega (arith, bal k, total k),
    )
