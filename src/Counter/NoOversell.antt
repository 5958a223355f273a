-- ===== src/Counter/NoOversell.antt =====
-- Sequences of reservations at the counters, against limits and against the range of an int64.
use borges_labs.Base.{
  ℕ, ◌+◌, ◌-◌, ◌≤◌, ◌<◌, ◌≡◌, refl, sym, ap, ◌∙◌, Bool, true, ◌&&◌, List, [], ◌∷◌, Str, arith,
  str_eq, str_eq_iff, str_eq_self, if◌then◌else◌, ℤ, pos, negsuc, add64, add64_pos, Dict, lookup,
  insert, lookup-insert, All, i64_half, u64_mod, ◌+ℤ◌, wrap64, leb,
}
use borges_labs.Counter.{value, mem_reserve}

pub value-insert :
    (k j : Str) (v : ℤ) (vals : Dict ℤ)
    → value j (insert k v vals) ≡ (if str_eq k j then v else value j vals)
unfolding value
value-insert k j v vals = ground (arith, lookup-insert k j v vals)

-- An attempt to reserve cents against a key.
abbrev pub Attempt : Type 0
Attempt = Str × ℕ

-- What was granted to a key, over attempts with their answers.
abbrev pub granted : Str → List (Attempt × Bool) → ℕ
granted k [] = 0
granted k (((j, n), done) ∷ log) = if done && str_eq j k then n + granted k log else granted k log

-- Reservations one after another, in the order in which the mutex admits them.
unfoldable pub run : (Str → ℕ) → List Attempt → Dict ℤ → List (Attempt × Bool) × Dict ℤ
run limit [] vals = ([], vals)
run limit ((k, n) ∷ attempts) vals =
    let step = mem_reserve k (pos n) (pos (limit k)) vals in
    let rest = run limit attempts step.1 in (((k, n), step.0.0) ∷ rest.0, rest.1)

-- A reservation of n cents at a key that holds v: the answer is whether v + n is within the
-- limit, and only then the counter moves, to v + n.
pub mem_reserve_exact :
    (k j : Str) (n v l : ℕ) (vals : Dict ℤ)
    → value k vals ≡ pos v
    → v + n < i64_half
    → ((mem_reserve k (pos n) (pos l) vals).0 ≡ (leb (v + n) l, pos v))
      × (value j (mem_reserve k (pos n) (pos l) vals).1
          ≡ (if leb (v + n) l && str_eq k j then pos (v + n) else value j vals))
unfolding mem_reserve
mem_reserve_exact k j n v l vals h s =
    rw (h, add64_pos v n s) (ground arith, ground (arith, value-insert k j (pos (v + n)) vals))

-- Every counter holds a number of cents within its limit.
abbrev pub WithinLimits : (Str → ℕ) → Dict ℤ → Type 0
WithinLimits limit vals = (k : Str) → (n : ℕ) × (value k vals ≡ pos n) × (n ≤ limit k)

-- The value of a key after a reservation, which it moves by what it grants.
moved : (Str → ℕ) → Str → Str → ℕ → ℕ → ℕ → ℕ
moved limit k j n v vj = if leb (v + n) (limit k) && str_eq k j then v + n else vj

reserve-WithinLimits :
    (limit : Str → ℕ) (k : Str) (n : ℕ) (vals : Dict ℤ) (w : WithinLimits limit vals)
    → limit k + n < i64_half
    → (j : Str)
    → (value j (mem_reserve k (pos n) (pos (limit k)) vals).1
        ≡ pos (moved limit k j n (w k).0 (w j).0))
      × (moved limit k j n (w k).0 (w j).0 ≤ limit j)
unfolding moved
reserve-WithinLimits limit k n vals w h j =
    let exact = mem_reserve_exact k j n (w k).0 (limit k) vals (w k).1 (omega (arith, (w k).2)) in
    (ground (arith, exact.1, (w j).1), ground (arith, str_eq_iff k j, (w j).2))

pos_inj : (a b : ℕ) → pos a ≡ pos b → a ≡ b
pos_inj a b h = ground arith

same_value :
    (limit : Str → ℕ) (vals : Dict ℤ) (w : WithinLimits limit vals) (k j : Str)
    → str_eq k j ≡ true
    → (w k).0 ≡ (w j).0
same_value limit vals w k j h =
    pos_inj _ _ (sym (w k).1 ∙ ap (λ i. value i vals) ((str_eq_iff k j).0 h) ∙ (w j).1)

moved-granted :
    (limit : Str → ℕ) (vals : Dict ℤ) (w : WithinLimits limit vals) (k j : Str) (n : ℕ)
    (log : List (Attempt × Bool))
    → moved limit k j n (w k).0 (w j).0 + granted j log
      ≡ (w j).0 + granted j (((k, n), leb ((w k).0 + n) (limit k)) ∷ log)
unfolding moved
moved-granted limit vals w k j n log = ground (arith, same_value limit vals w k j)

run_from :
    (limit : Str → ℕ) (attempts : List Attempt) (vals : Dict ℤ) (w : WithinLimits limit vals)
    → All (λ a. limit a.0 + a.1 < i64_half) attempts
    → (j : Str)
    → (value j (run limit attempts vals).1 ≡ pos ((w j).0 + granted j (run limit attempts vals).0))
      × ((w j).0 + granted j (run limit attempts vals).0 ≤ limit j)
unfolding run
run_from limit [] vals w h j = (rw (w j).1 (ap pos (omega arith)), omega (arith, (w j).2))
run_from limit ((k, n) ∷ attempts) vals w h j =
    let exact =
      mem_reserve_exact k j n (w k).0 (limit k) vals (w k).1 (omega (arith, (w k).2, h.0)) in
    let next : WithinLimits limit (mem_reserve k (pos n) (pos (limit k)) vals).1 = λ i.
      let (value_eq, bound) = reserve-WithinLimits limit k n vals w h.0 i in
      (moved limit k i n (w k).0 (w i).0, value_eq, bound) in
    let ih = run_from limit attempts (mem_reserve k (pos n) (pos (limit k)) vals).1 next h.1 j in
    let sum =
      moved-granted limit vals w k j n
        (run limit attempts (mem_reserve k (pos n) (pos (limit k)) vals).1).0 in
    let granted_eq =
      sum
      ∙ ap
          (λ d.
            (w j).0
            + granted j (
                ((k, n), d)
                ∷ (run limit attempts (mem_reserve k (pos n) (pos (limit k)) vals).1).0))
          (sym (ap (λ x. x.0) exact.0)) in
    (ih.0 ∙ ap pos granted_eq, omega (arith, ih.1, granted_eq))

-- From empty counters, after any reservations in any order, the counter of each key holds the
-- sum of what was granted to it, and that sum is at most its limit, if the limits and amounts
-- are small enough that no sum of two leaves the int64 range.
pub run-no_oversell :
    (limit : Str → ℕ) (attempts : List Attempt)
    → All (λ a. limit a.0 + a.1 < i64_half) attempts
    → (j : Str)
    → let after = run limit attempts [] in
      (value j after.1 ≡ pos (granted j after.0)) × (granted j after.0 ≤ limit j)
run-no_oversell limit attempts h j =
    let (total, bound) = run_from limit attempts [] (λ k. (0, empty k, omega arith)) h j in
    (total ∙ ap pos (omega arith), omega (arith, bound))
  where
    empty : (k : Str) → value k [] ≡ pos 0
    empty k = unfold value lookup in refl

-- Where prior and amount together leave the int64 range, the sum wraps below zero: the amount is
-- reserved whatever the limit, and the counter turns negative.
pub mem_reserve-overflow :
    (k : Str) (n v l : ℕ) (vals : Dict ℤ)
    → value k vals ≡ pos v
    → i64_half ≤ v + n
    → v + n < u64_mod
    → let r = mem_reserve k (pos n) (pos l) vals in
      (r.0 ≡ (true, pos v)) × (value k r.1 ≡ negsuc (u64_mod - (v + n) - 1))
unfolding mem_reserve add64 ◌+ℤ◌ wrap64
mem_reserve-overflow k n v l vals h lo hi = rw h (
  ground arith,
  ground (arith, value-insert k k (negsuc (u64_mod - (v + n) - 1)) vals, str_eq_self k),
)
