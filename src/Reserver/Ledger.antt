-- ===== src/Reserver/Ledger.antt =====
-- Counter and ledger in step (services/authorize-svc/internal/budget/reserver.go): the counter of a
-- window against the sum of the active holds that count against it, and `Reserve`.
use mathlib.Core.Path.{subst}
use borges_labs.Base.{
  ℕ, ◌+◌, ◌-◌, ◌≤◌, ◌<◌, ◌≡◌, refl, sym, ap, ◌∙◌, Bool, true, false, ◌&&◌, Option, none, some, [],
  Str, arith, str_eq, str_eq_iff, lookup, if◌then◌else◌, i64_half, Dict, ℤ, pos, pos_part, leb,
  sub64_pos, ltb_ℤ,
}
use borges_labs.Clock.{Time, Platform}
use borges_labs.Contracts.{AuthorizeRequest}
use borges_labs.Policies.{BudgetDecl, BudgetResult, budget_within_limit, budget_exceeded}
use borges_labs.Cents.{counter_key, window_key, to_cents}
use borges_labs.Counter.{mem_counter, value, mem_reserve, mem_release}
use borges_labs.Counter.NoOversell.{value-insert, mem_reserve_exact}
use borges_labs.Hold.{Hold, Holds, held, key, is_active, place, mem_store}
use borges_labs.Hold.Sums.{sum_by, sum_by-insert-none}
use borges_labs.Reserver.{hold_key, new_hold, reserve_time, reserve_cents, reserve, record_hold}

-- The cents that a hold reserves, where its amount can be read.
abbrev pub read_cents : Option ℤ → ℕ
read_cents none = 0
read_cents (some c) = pos_part c

abbrev pub spent_at : Str → Str → Hold → ℕ
spent_at k _ h =
    if is_active h.state && str_eq (hold_key h) k then read_cents (to_cents h.amount) else 0

-- The sum of the active holds that count against a key.
abbrev pub spent : Str → Holds → ℕ
spent k m = sum_by (spent_at k) m

abbrev pub IsBalanced : Dict ℤ × Holds → Type 0
IsBalanced (vals, m) = (k : Str) → (value k vals ≡ pos (spent k m)) × (spent k m < i64_half)

floor_pos : (n : ℕ) → (if ltb_ℤ (pos n) (pos 0) then pos 0 else pos n) ≡ pos n
floor_pos n = ground arith

-- Giving back an amount that the counter holds takes it off the counter of its key.
pub mem_release_exact :
    (k j : Str) (n v : ℕ) (vals : Dict ℤ)
    → value k vals ≡ pos v
    → n ≤ v
    → v < i64_half
    → value j (mem_release k (pos n) vals) ≡ (if str_eq k j then pos (v - n) else value j vals)
unfolding mem_release
mem_release_exact k j n v vals e h l =
    rw (e, sub64_pos v n h l, floor_pos) (value-insert k j (pos (v - n)) vals)

-- A new hold adds its cents to its own key.
place-spent :
    (now : Time) (h : Hold) (m : Holds) (k : Str)
    → lookup (key h.org_id h.decision_id) m ≡ none
    → h.state ≡ held
    → spent k (place now h m) ≡ spent k m + spent_at k [] h
unfolding place
place-spent now h m k missing s =
    rw (missing, place)
      (sum_by-insert-none (spent_at k) (key h.org_id h.decision_id) _ m missing
        ∙ ap (λ n. spent k m + n) (ground arith))

pub same_spent : (k j : Str) (m : Holds) → str_eq k j ≡ true → spent k m ≡ spent j m
same_spent k j m h = ap (λ i. spent i m) ((str_eq_iff k j).0 h)

step_value :
    (granted same : Bool) (x y a : ℕ) {w : ℤ}
    → (same ≡ true → x ≡ y)
    → w ≡ pos y
    → (if granted && same then pos (x + a) else w) ≡ pos (if granted && same then y + a else y)
step_value granted same x y a h e = ground arith

step_bound :
    (granted same : Bool) (x y a : ℕ)
    → (same ≡ true → x ≡ y)
    → x + a < i64_half
    → y < i64_half
    → (if granted && same then y + a else y) < i64_half
step_bound granted same x y a h e l = ground arith

module _ (platform : Platform) (ttl now : Time) (org id : Str) (req : AuthorizeRequest)
    (b : BudgetDecl) where
  -- The window and the counter that a reservation counts against.
  abbrev pub window_of : Str
  window_of = window_key platform b.window (reserve_time platform now req)

  abbrev pub counter_of : Str
  counter_of = counter_key org b.id window_of

  abbrev pub hold_of : Hold
  hold_of = new_hold (reserve_time platform now req) ttl org id window_of req b

  reserve_mem : Dict ℤ × Holds → BudgetResult × (Dict ℤ × Holds)
  reserve_mem w = reserve mem_counter (mem_store now) platform ttl now org id req b w

  reserve_mem_lem :
      (vals : Dict ℤ) (m : Holds) {a l : ℤ}
      → to_cents req.amount ≡ some a
      → to_cents b.limit ≡ some l
      → (reserved : Bool) (prior : ℤ) → (mem_reserve counter_of a l vals).0 ≡ (reserved, prior)
      → ((reserve_mem (vals, m)).0.outcome
          ≡ (if reserved then budget_within_limit else budget_exceeded))
        × ((reserve_mem (vals, m)).1
            ≡ ((mem_reserve counter_of a l vals).1, if reserved then place now hold_of m else m))
  unfolding reserve_mem reserve reserve_cents record_hold
  reserve_mem_lem vals m ea el true prior e = (ground arith, ground arith)
  reserve_mem_lem vals m ea el false prior e = (ground arith, ground arith)

  hold_of-spent :
      (k : Str) (a : ℕ)
      → to_cents req.amount ≡ some (pos a)
      → spent_at k [] hold_of ≡ (if str_eq counter_of k then a else 0)
  unfolding new_hold
  hold_of-spent k a e = ground arith

  placed-spent :
      (m : Holds) {a : ℕ}
      → to_cents req.amount ≡ some (pos a)
      → lookup (key org id) m ≡ none
      → (placed : Bool) (k : Str)
      → spent k (if placed then place now hold_of m else m)
        ≡ (if placed && str_eq counter_of k then spent k m + a else spent k m)
  placed-spent m e missing true k =
      place-spent now hold_of m k (unfold new_hold in missing) (unfold new_hold in refl)
      ∙ rw (hold_of-spent k _ e) (added _ _ _)
    where
      added : (c : Bool) (n a : ℕ) → n + (if c then a else 0) ≡ (if c then n + a else n)
      added c n a = ground arith
  placed-spent m e missing false k = refl

  balanced_after :
      (vals : Dict ℤ) (m : Holds) {a : ℕ} (l : ℕ)
      → to_cents req.amount ≡ some (pos a)
      → lookup (key org id) m ≡ none
      → spent counter_of m + a < i64_half
      → IsBalanced (vals, m)
      → (k : Str)
      → (value k (mem_reserve counter_of (pos a) (pos l) vals).1
          ≡ pos (spent k (if leb (spent counter_of m + a) l then place now hold_of m else m)))
        × (spent k (if leb (spent counter_of m + a) l then place now hold_of m else m) < i64_half)
  balanced_after vals m {a} l ea missing fits bal k =
      let exact =
        mem_reserve_exact counter_of k a (spent counter_of m) l vals (bal counter_of).0 fits in
      rw (placed-spent m ea missing (leb (spent counter_of m + a) l) k) (
        exact.1
            ∙ step_value (leb (spent counter_of m + a) l) (str_eq counter_of k) _ _ a
                (same_spent counter_of k m) (bal k).0,
        step_bound (leb (spent counter_of m + a) l) (str_eq counter_of k) _ _ a
            (same_spent counter_of k m) fits (bal k).1,
      )

  -- With readable amounts, a decision id that is new, and sums that fit an int64, a reservation
  -- is granted exactly if what is already spent and the amount stay within the limit. Granted,
  -- it adds the amount to counter and ledger; refused, it changes neither; counter and ledger
  -- stay in step either way.
  pub reserve-IsBalanced :
      (vals : Dict ℤ) (m : Holds) {a l : ℕ}
      → to_cents req.amount ≡ some (pos a)
      → to_cents b.limit ≡ some (pos l)
      → lookup (key org id) m ≡ none
      → spent counter_of m + a < i64_half
      → IsBalanced (vals, m)
      → let r = reserve mem_counter (mem_store now) platform ttl now org id req b (vals, m) in
        (r.0.outcome
          ≡ (if leb (spent counter_of m + a) l then budget_within_limit else budget_exceeded))
        × ((k : Str)
            → spent k r.1.1 ≡ (
                if leb (spent counter_of m + a) l && str_eq counter_of k
                then spent k m + a
                else spent k m))
        × IsBalanced r.1
  unfolding reserve_mem
  reserve-IsBalanced vals m {a} {l} ea el missing fits bal =
      let d = leb (spent counter_of m + a) l in
      let exact =
        mem_reserve_exact counter_of counter_of a (spent counter_of m) l vals (bal counter_of).0
          fits in
      let (outcome, state) = reserve_mem_lem vals m ea el d (pos (spent counter_of m)) exact.0 in
      (
        outcome,
        λ k. ap (λ (x : Dict ℤ × Holds). spent k x.1) state ∙ placed-spent m ea missing d k,
        subst IsBalanced (sym state) (λ k. balanced_after vals m l ea missing fits bal k),
      )
