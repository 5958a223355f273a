-- ===== src/Tests/Ledgers.antt =====
-- Histories of the ledger, and counter and ledger in step.
use borges_labs.Base.{
  ℕ, ◌≡◌, ◌<◌, ◌≤◌, ◌+◌, refl, true, false, ◌&&◌, List, [], ◌∷◌, Str, str, str_eq, arith, none,
  some, pos, ℤ, Dict, i64_half, if◌then◌else◌, leb, lookup, add64, wrap64, ◌+ℤ◌, mul64, scale,
}
use borges_labs.Cents.{to_cents, parse_int}
use borges_labs.Counter.{value, mem_counter}
use borges_labs.Policies.{budget_within_limit, budget_exceeded}
use borges_labs.Hold.{
  key, captured, voided, is_due, capture, void, resolve, expire, ok, mem_store, Hold,
}
use borges_labs.Hold.Transitions.{Op, place_op, void_op, get_op, expire_op, run}
use borges_labs.Hold.Keyed.{IsKeyed}
use borges_labs.Hold.Once.{releases, run-releases_once}
use borges_labs.Hold.Sums.{sum_by}
use borges_labs.Reserver.{hold_key, reserve, void_hold, release_expired}
use borges_labs.Reserver.Ledger.{spent, IsBalanced, counter_of, reserve-IsBalanced}
use borges_labs.Reserver.Release.{IsReadable, given, release_expired-IsBalanced}
use borges_labs.Reserver.Settle.{void_hold-IsBalanced, void_overdue_leaks}
use borges_labs.Tests.Data.{noon, platform, org, request, daily, some_hold, ledger}

-- Placed, overdue when read, voided, swept and voided again.
abbrev history : List Op
history =
    place_op noon some_hold
    ∷ get_op (noon + 900000000000) org (str "d1")
    ∷ void_op (noon + 900000000001) org (str "d1")
    ∷ expire_op (noon + 900000000002) 0
    ∷ void_op (noon + 900000000003) org (str "d1")
    ∷ []

run-releases_once_example : releases (str "org1|d1") (run history []).0 ≤ 1
run-releases_once_example = run-releases_once history (str "org1|d1")

stored : lookup (key org (str "d1")) ledger ≡ some some_hold
unfolding lookup key str_eq
stored = refl

abbrev captured_hold : Hold
captured_hold = record some_hold { state = captured; captured_at = noon }

captures : (capture noon org (str "d1") ledger).0 ≡ ok captured_hold
unfolding capture resolve expire lookup key str_eq is_due
captures = refl

abbrev voided_hold : Hold
voided_hold = record some_hold { state = voided; voided_at = noon }

voids : (void noon org (str "d1") ledger).0 ≡ ok (voided_hold, true)
unfolding void resolve expire lookup key str_eq is_due
voids = refl

ledger-IsKeyed : IsKeyed ledger
unfolding key
ledger-IsKeyed = (refl, tt)

empty-IsBalanced : IsBalanced ([], [])
unfolding value lookup sum_by
empty-IsBalanced k = (refl, omega arith)

money : (to_cents (str "40.00") ≡ some (pos 4000)) × (to_cents (str "50.00") ≡ some (pos 5000))
unfolding to_cents parse_int add64 wrap64 ◌+ℤ◌ mul64 scale
money = (refl, refl)

missing : lookup {V = Hold} (key org (str "d1")) [] ≡ none
unfolding lookup
missing = refl

no_spend : (k : Str) → spent k [] ≡ 0
unfolding sum_by
no_spend k = refl

reserve-IsBalanced_example :
    let r =
      reserve mem_counter
        (mem_store noon)
        platform
        900000000000
        noon
        org
        (str "d1")
        request
        daily
        ([], []) in
    let k = counter_of platform 900000000000 noon org (str "d1") request daily in
    (r.0.outcome ≡ (if leb (spent k [] + 4000) 5000 then budget_within_limit else budget_exceeded))
    × ((j : Str)
        → spent j r.1.1
          ≡ (if leb (spent k [] + 4000) 5000 && str_eq k j then spent j [] + 4000 else spent j []))
    × IsBalanced r.1
reserve-IsBalanced_example =
    reserve-IsBalanced platform 900000000000 noon org (str "d1") request daily [] [] money.0 money.1
      missing
      (omega (arith, no_spend (counter_of platform 900000000000 noon org (str "d1") request daily)))
      empty-IsBalanced

-- The counter of the day, which holds what the one hold reserves.
abbrev counted : Dict ℤ
counted = (hold_key some_hold, pos 4000) ∷ []

counted-IsBalanced : IsBalanced (counted, ledger)
unfolding value lookup sum_by
counted-IsBalanced k = ground (arith, money)

on_time : is_due noon some_hold ≡ false
unfolding is_due
on_time = refl

abbrev late : ℕ
late = 63907964100000000000

overdue : is_due late some_hold ≡ true
unfolding is_due
overdue = refl

some_hold-IsReadable : IsReadable some_hold
unfolding to_cents parse_int add64 wrap64 ◌+ℤ◌ mul64 scale
some_hold-IsReadable = refl

abbrev day_key : Str
day_key = hold_key some_hold

release_expired-IsBalanced_example :
    let r = release_expired mem_counter (mem_store noon) late 0 (counted, ledger) in
    (value day_key r.1.0 ≡ pos (spent day_key r.1.1)) × (spent day_key r.1.1 < i64_half)
release_expired-IsBalanced_example =
    release_expired-IsBalanced noon late 0 counted ledger (some_hold-IsReadable, tt)
      counted-IsBalanced day_key

void_hold-IsBalanced_example :
    let r = void_hold mem_counter (mem_store noon) org (str "d1") (counted, ledger) in
    ((k : Str) → spent k ledger ≡ spent k r.1.1 + given k some_hold) × IsBalanced r.1
void_hold-IsBalanced_example =
    void_hold-IsBalanced noon org (str "d1") counted ledger stored on_time some_hold-IsReadable
      counted-IsBalanced

void_overdue_leaks_example :
    let r = void_hold mem_counter (mem_store late) org (str "d1") (counted, ledger) in
    value day_key r.1.0 ≡ pos (spent day_key r.1.1 + given day_key some_hold)
void_overdue_leaks_example =
    void_overdue_leaks late org (str "d1") counted ledger stored overdue counted-IsBalanced day_key
