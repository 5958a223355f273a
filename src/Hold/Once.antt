-- ===== src/Hold/Once.antt =====
-- How often the calls of the ledger release the reservation of a decision.
use borges_labs.Base.{
  ℕ, ◌+◌, ◌≤◌, ◌≡◌, inl, inr, ◌&&◌, Option, none, some, List, [], ◌∷◌, ◌++◌, Str, arith, str_eq,
  str_eq_iff, lookup, insert, lookup-insert, lookup-insert_self, if◌then◌else◌, Option-cases, All,
}
use borges_labs.Clock.{Time}
use borges_labs.Hold.{
  Hold, key, Holds, place, is_due, is_held, expire, capture_switch, void_switch, expire_loop,
  expire_due,
}
use borges_labs.Hold.Sums.{
  sum_by, sum_released, sum_by-insert-some, sum_by-insert-none, Frees, sum_by-expire_loop,
}
use borges_labs.Hold.Transitions.{
  Op, place_op, capture_op, void_op, get_op, expire_op, freed_by, apply, run, capture-stores,
  void-stores, get-stores, missing_unchanged, expire_loop-lookup,
}
use borges_labs.Hold.Keyed.{own_key, IsKeyed, IsKeyed-lookup, apply-IsKeyed}

-- A hold that may still be released, at a key.
abbrev open_at : Str → Str → Hold → ℕ
open_at j k h = if str_eq k j && is_held h.state then 1 else 0

abbrev freed_at : Str → Hold → ℕ
freed_at j h = if str_eq (own_key h) j then 1 else 0

-- How often a decision occurs among released holds.
abbrev pub releases : Str → List Hold → ℕ
releases j hs = sum_released (freed_at j) hs

-- How often a decision may yet be released: once if it has not been placed, and once for each
-- of its entries that is held.
abbrev unplaced : Option Hold → ℕ
unplaced none = 1
unplaced (some _) = 0

budget : Str → Holds → ℕ
budget j m = unplaced (lookup j m) + sum_by (open_at j) m

unplaced-insert :
    (k j : Str) (h old : Hold) (m : Holds)
    → lookup k m ≡ some old
    → unplaced (lookup j (insert k h m)) ≡ unplaced (lookup j m)
unplaced-insert k j h old m e = ground (arith, lookup-insert k j h m, str_eq_iff k j)

-- Writing at a stored key exchanges what may be released there.
budget-insert :
    (k j : Str) (h old : Hold) (m : Holds)
    → lookup k m ≡ some old
    → budget j (insert k h m) + open_at j k old ≡ budget j m + open_at j k h
unfolding budget
budget-insert k j h old m e =
    omega (arith, unplaced-insert k j h old m e, sum_by-insert-some (open_at j) k h old m e)

budget-insert_twice :
    (k j : Str) (h g old : Hold) (m : Holds)
    → lookup k m ≡ some old
    → budget j (insert k h (insert k g m)) + open_at j k old ≡ budget j m + open_at j k h
budget-insert_twice k j h g old m e = omega (
  arith,
  budget-insert k j g old m e,
  budget-insert k j h g (insert k g m) (lookup-insert_self k g m),
)

-- What a call may release is paid for out of the budget.
abbrev Pays : Str → Holds → List Hold × Holds → Type 0
Pays j m (freed, m') = budget j m' + releases j freed ≤ budget j m

capture_open :
    (now : Time) (j k : Str) (h : Hold)
    → open_at j k (capture_switch (expire now h).state now (expire now h)).1 ≤ open_at j k h
unfolding expire is_due
capture_open now j k h = ground arith

expire_open : (now : Time) (j k : Str) (h : Hold) → open_at j k (expire now h) ≤ open_at j k h
unfolding expire is_due
expire_open now j k h = ground arith

void_open :
    (now : Time) (j k : Str) (h : Hold)
    → k ≡ own_key h
    → open_at j k (void_switch (expire now h).state now (expire now h)).1
        + releases j (freed_by (void_switch (expire now h).state now (expire now h)).0)
      ≤ open_at j k h
unfolding expire is_due sum_released
void_open now j k h e = ground arith

new_open :
    (k j : Str) (h : Hold) (m : Holds)
    → lookup k m ≡ none
    → unplaced (lookup j (insert k h m)) + open_at j k h ≤ unplaced (lookup j m)
new_open k j h m e = ground (arith, lookup-insert k j h m, str_eq_iff k j)

-- A placed hold is budgeted before it is there.
place_pays : (now : Time) (j : Str) (h : Hold) (m : Holds) → budget j (place now h m) ≤ budget j m
unfolding place budget
place_pays now j h m = elim (Option-cases (lookup (own_key h) m)) [
  | inl missing ↦
      rw (missing, place)
        (omega (
          arith,
          new_open (own_key h) j _ m missing,
          sum_by-insert-none (open_at j) (own_key h) _ m missing,
        ))
  | inr (old, e) ↦ rw (e, place) (omega arith)
]

expire-Frees :
    (now : Time) (j : Str) (m : Holds) → IsKeyed m → All (Frees (open_at j) (freed_at j) now) m
unfolding is_due
expire-Frees now j [] a = tt
expire-Frees now j ((k, h) ∷ m) a = (λ d. ground (arith, a.0), expire-Frees now j m a.1)

expire_unplaced :
    (now limit : ℕ) (j : Str) (m : Holds)
    → unplaced (lookup j (expire_loop now limit 0 m).1) ≤ unplaced (lookup j m)
expire_unplaced now limit j m = elim (Option-cases (lookup j m)) [
  | inl missing ↦ ground arith
  | inr (h, e) ↦ ground (arith, (expire_loop-lookup now limit 0 j m e).1)
]

apply-Pays : (op : Op) (j : Str) (m : Holds) → IsKeyed m → Pays j m (apply op m)
unfolding apply sum_released
apply-Pays (place_op now h) j m a = omega (arith, place_pays now j h m)
apply-Pays (capture_op now org id) j m a = elim (Option-cases (lookup (key org id) m)) [
  | inl missing ↦ rw (missing_unchanged now org id m missing).0 (omega arith)
  | inr (h, e) ↦ rw (capture-stores now org id m e) (
      omega
        (arith, budget-insert_twice (key org id) j _ _ h m e, capture_open now j (key org id) h))
]
apply-Pays (void_op now org id) j m a = elim (Option-cases (lookup (key org id) m)) [
  | inl missing ↦ rw (missing_unchanged now org id m missing).1 (omega arith)
  | inr (h, e) ↦ rw (void-stores now org id m e) (
      omega (
        arith,
        budget-insert_twice (key org id) j _ _ h m e,
        void_open now j (key org id) h (IsKeyed-lookup (key org id) m a e),
      ))
]
apply-Pays (get_op now org id) j m a = elim (Option-cases (lookup (key org id) m)) [
  | inl missing ↦ rw (missing_unchanged now org id m missing).2 (omega arith)
  | inr (h, e) ↦
      rw (get-stores now org id m e)
        (omega (arith, budget-insert (key org id) j _ h m e, expire_open now j (key org id) h))
]
apply-Pays (expire_op now limit) j m a =
    unfold expire_due budget in
    omega (
      arith,
      expire_unplaced now limit j m,
      sum_by-expire_loop (open_at j) (freed_at j) now limit 0 m (expire-Frees now j m a),
    )

releases-append :
    (j : Str) (xs ys : List Hold) → releases j (xs ++ ys) ≡ releases j xs + releases j ys
unfolding sum_released
releases-append j [] ys = omega arith
releases-append j (x ∷ xs) ys = omega (arith, releases-append j xs ys)

run-Pays : (ops : List Op) (j : Str) (m : Holds) → IsKeyed m → Pays j m (run ops m)
unfolding run sum_released
run-Pays [] j m a = omega arith
run-Pays (op ∷ ops) j m a = omega (
  arith,
  apply-Pays op j m a,
  run-Pays ops j (apply op m).1 (apply-IsKeyed op m a),
  releases-append j (apply op m).0 (run ops (apply op m).1).0,
)

-- From an empty ledger, over any history of placements, captures, voids, reads and sweeps with
-- any clock readings, the reservation of a decision is released at most once.
pub run-releases_once : (ops : List Op) (j : Str) → releases j (run ops []).0 ≤ 1
run-releases_once ops j = unfold budget sum_by lookup in omega (arith, run-Pays ops j [] tt)
