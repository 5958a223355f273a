-- ===== src/Reserver/Settle.antt =====
-- `Capture` and `Void` of services/authorize-svc/internal/budget/reserver.go against counter and
-- ledger.

use borges_labs.Base.{
  ◌+◌, ◌≡◌, sym, ap, ◌∙◌, inl, inr, true, false, some, [], Str, arith, lookup, insert,
  lookup-insert_self, if◌then◌else◌, Bool-cases, Dict, ℤ, pos,
}
use borges_labs.Clock.{Time}
use borges_labs.Counter.{mem_counter, value}
use borges_labs.Hold.{
  Hold, Holds, key, is_due, is_held, expire, capture, capture_switch, void, void_switch, mem_store,
}
use borges_labs.Hold.Sums.{sum_by-insert-some}
use borges_labs.Hold.Transitions.{capture-stores, void-stores}
use borges_labs.Reserver.{give_back, capture_hold, void_hold}
use borges_labs.Reserver.Ledger.{spent_at, spent, IsBalanced}
use borges_labs.Reserver.Release.{IsReadable, given, give_back-lowers}

-- Two writes at the key of a stored hold exchange its cents for those of the second.
spent-twice :
    (k j : Str) (g e : Hold) (m : Holds) {h : Hold}
    → lookup j m ≡ some h
    → spent k (insert j g (insert j e m)) + spent_at k j h ≡ spent k m + spent_at k j g
spent-twice k j g e m {h} found = omega (
  arith,
  sum_by-insert-some (spent_at k) j e h m found,
  sum_by-insert-some (spent_at k) j g e (insert j e m) (lookup-insert_self j e m),
)

capture-spent :
    (now : Time) (k : Str) (h : Hold)
    → is_due now h ≡ false
    → spent_at k [] (capture_switch (expire now h).state now (expire now h)).1 ≡ spent_at k [] h
unfolding expire
capture-spent now k h d = ground arith

capture_same :
    (now : Time) (org id k : Str) (m : Holds) {h : Hold}
    → lookup (key org id) m ≡ some h
    → is_due now h ≡ false
    → spent k (capture now org id m).1 ≡ spent k m
capture_same now org id k m {h} found d =
    rw (capture-stores now org id m found)
      (omega (arith, spent-twice k (key org id) _ (expire now h) m found, capture-spent now k h d))

-- The capture of a stored hold that is not overdue moves no money: what is spent stays, and
-- counter and ledger stay in step.
pub capture_hold-IsBalanced :
    (now : Time) (org id : Str) (vals : Dict ℤ) (m : Holds) {h : Hold}
    → lookup (key org id) m ≡ some h
    → is_due now h ≡ false
    → IsBalanced (vals, m)
    → let r = capture_hold mem_counter (mem_store now) org id (vals, m) in
      ((k : Str) → spent k r.1.1 ≡ spent k m) × IsBalanced r.1
unfolding capture_hold
capture_hold-IsBalanced now org id vals m found d bal = (
  λ k. capture_same now org id k m found d,
  λ k. rw (capture_same now org id k m found d) (bal k),
)

void_kept :
    (now : Time) (k : Str) (h : Hold)
    → is_due now h ≡ false
    → spent_at k [] (void_switch (expire now h).state now (expire now h)).1
      ≡ (if is_held h.state then 0 else spent_at k [] h)
unfolding expire
void_kept now k h d = ground arith

void_lowers :
    (now : Time) (org id k : Str) (m : Holds) {h : Hold}
    → lookup (key org id) m ≡ some h
    → is_due now h ≡ false
    → is_held h.state ≡ true
    → spent k m ≡ spent k (void now org id m).1 + given k h
void_lowers now org id k m {h} found d s = rw (void-stores now org id m found) (
    ground (
      arith,
      spent-twice k (key org id) (void_switch (expire now h).state now (expire now h)).1
          (expire now h) m found,
      void_kept now k h d,
    ))

void_same :
    (now : Time) (org id k : Str) (m : Holds) {h : Hold}
    → lookup (key org id) m ≡ some h
    → is_due now h ≡ false
    → is_held h.state ≡ false
    → spent k (void now org id m).1 ≡ spent k m
void_same now org id k m {h} found d s = rw (void-stores now org id m found) (
    ground (
      arith,
      spent-twice k (key org id) (void_switch (expire now h).state now (expire now h)).1
          (expire now h) m found,
      void_kept now k h d,
    ))

void_vals :
    (now : Time) (org id : Str) (vals : Dict ℤ) (m : Holds) {h : Hold}
    → lookup (key org id) m ≡ some h
    → is_due now h ≡ false
    → (void_hold mem_counter (mem_store now) org id (vals, m)).1.0
      ≡ (if is_held h.state then give_back mem_counter (mem_store now) h vals else vals)
unfolding void_hold expire give_back
void_vals now org id vals m {h} found d = rw (void-stores now org id m found) (ground arith)

-- A void of a stored hold that is not overdue, its amount readable, gives back exactly what the
-- hold reserved, if it is held, and nothing otherwise: counter and ledger stay in step.
pub void_hold-IsBalanced :
    (now : Time) (org id : Str) (vals : Dict ℤ) (m : Holds) {h : Hold}
    → lookup (key org id) m ≡ some h
    → is_due now h ≡ false
    → IsReadable h
    → IsBalanced (vals, m)
    → let r = void_hold mem_counter (mem_store now) org id (vals, m) in
      ((k : Str) → spent k m ≡ spent k r.1.1 + (if is_held h.state then given k h else 0))
      × IsBalanced r.1
unfolding void_hold
void_hold-IsBalanced now org id vals m {h} found d r bal = elim (Bool-cases (is_held h.state)) [
  | inl live ↦
      let lower = λ (k : Str). void_lowers now org id k m found d live in
      (
        λ k. rw live (lower k),
        λ k. (
          ap (value k) (void_vals now org id vals m found d)
              ∙ rw live (
                  give_back-lowers now h (λ k. spent k (void now org id m).1) vals r
                    (λ k. ((bal k).0 ∙ ap pos (lower k), omega (arith, bal k, lower k))) k),
          omega (arith, bal k, lower k),
        ),
      )
  | inr over ↦
      let same = λ (k : Str). void_same now org id k m found d over in
      (
        λ k. rw over (omega (arith, same k)),
        λ k. (
          ap (value k) (void_vals now org id vals m found d) ∙ rw (over, same k) (bal k).0,
          omega (arith, bal k, same k),
        ),
      )
]

overdue_spent :
    (now : Time) (k : Str) (h : Hold)
    → is_due now h ≡ true
    → (spent_at k [] (void_switch (expire now h).state now (expire now h)).1 ≡ 0)
      × (spent_at k [] h ≡ given k h)
unfolding expire is_due
overdue_spent now k h d = (ground arith, ground arith)

overdue_vals :
    (now : Time) (org id : Str) (vals : Dict ℤ) (m : Holds) {h : Hold}
    → lookup (key org id) m ≡ some h
    → is_due now h ≡ true
    → (void_hold mem_counter (mem_store now) org id (vals, m)).1.0 ≡ vals
unfolding void_hold expire is_due
overdue_vals now org id vals m {h} found d = rw (void-stores now org id m found) (ground arith)

-- A void of a stored hold that is overdue and not yet swept leaves the counter of its key above
-- what the ledger counts by the cents of the hold, where the two were in step before.
pub void_overdue_leaks :
    (now : Time) (org id : Str) (vals : Dict ℤ) (m : Holds) {h : Hold}
    → lookup (key org id) m ≡ some h
    → is_due now h ≡ true
    → IsBalanced (vals, m)
    → let r = void_hold mem_counter (mem_store now) org id (vals, m) in
      (k : Str) → value k r.1.0 ≡ pos (spent k r.1.1 + given k h)
unfolding void_hold
void_overdue_leaks now org id vals m {h} found d bal k =
    let lower : spent k (void now org id m).1 + given k h ≡ spent k m =
      rw (void-stores now org id m found) (
        omega (
          arith,
          overdue_spent now k h d,
          spent-twice k (key org id) (void_switch (expire now h).state now (expire now h)).1
              (expire now h) m found,
        )) in
    ap (value k) (overdue_vals now org id vals m found d) ∙ (bal k).0 ∙ ap pos (sym lower)
