-- ===== src/Reserver.antt =====
-- Budget enforcement (services/authorize-svc/internal/budget/reserver.go, reconcile.go): the
-- reservation in counter and ledger, its release, and the reconciler that sweeps overdue holds
-- and rebuilds a counter. Counter and ledger are reached through their interfaces; each call is
-- one step on the pair of their states.
pub mod Ledger
pub mod Release
pub mod Settle
use borges_labs.Base.{
  ℕ, ◌+◌, Bool, true, false, Option, none, some, List, [], ◌∷◌, Str, ℤ, pos, add64, ltb,
  if◌then◌else◌,
}
use borges_labs.Clock.{Time, Platform}
use borges_labs.Contracts.{AuthorizeRequest}
use borges_labs.Policies.{
  BudgetDecl, BudgetResult, budget_within_limit, budget_exceeded, budget_unavailable,
}
use borges_labs.Cents.{counter_key, window_key, window_ttl, window_sticky, to_cents, cents_to_str}
use borges_labs.Counter.{Counter}
use borges_labs.Hold.{Hold, held, HoldStore, Returned, ok, err}

-- `NewReserver` replaces a lifetime that is not positive by the default of 15 minutes.
unfoldable pub reserver_ttl : ℕ → ℕ
reserver_ttl ttl = if ltb 0 ttl then ttl else 900000000000

-- The time that a reservation counts under: the request's, or else the reserver's clock.
unfoldable pub reserve_time : Platform → Time → AuthorizeRequest → Time
reserve_time platform now req = elim (platform.parse_time req.evaluated_at) [
  | some t ↦ t
  | none ↦ now
]

unfoldable pub new_hold : Time → ℕ → Str → Str → Str → AuthorizeRequest → BudgetDecl → Hold
new_hold t ttl org id wk req b = record {
  decision_id = id;
  org_id = org;
  agent_id = req.agent_id;
  budget_id = b.id;
  window = b.window;
  window_key = wk;
  amount = req.amount;
  currency = req.currency;
  state = held;
  created_at = t;
  expires_at = t + ttl;
  captured_at = 0;
  voided_at = 0;
}

abbrev pub unavailable_result : Str → BudgetResult
unavailable_result wk = record {
  outcome = budget_unavailable;
  spend_to_date = [];
  limit = [];
  window_key = wk;
}

-- `counterKey(h.OrgID, h.BudgetID, h.WindowKey)`
abbrev pub hold_key : Hold → Str
hold_key h = counter_key h.org_id h.budget_id h.window_key

module _ {S T : Type 0} (counter : Counter S) (holds : HoldStore T) where
  -- After the counter granted the amount: the ledger is written, or the grant is undone.
  unfoldable pub record_hold : Str → ℤ → Hold → BudgetResult → S × T → BudgetResult × (S × T)
  record_hold key amount h res (s, t) =
      let placed = holds.place h t in
      if placed.0
      then (record res { outcome = budget_within_limit }, (s, placed.1))
      else (unavailable_result res.window_key, ((counter.release key amount s).1, placed.1))

  granted_or_not : Bool → Str → ℤ → Hold → BudgetResult → S × T → BudgetResult × (S × T)
  granted_or_not true key amount h res w = record_hold key amount h res w
  granted_or_not false key amount h res w = (record res { outcome = budget_exceeded }, w)

  -- The call of the counter with amounts in cents.
  unfoldable pub reserve_cents :
      Str → Str → ℤ → ℤ → Hold → BudgetDecl → S × T → BudgetResult × (S × T)
  unfolding granted_or_not
  reserve_cents key wk amount limit h b (s, t) =
      let step =
        counter.reserve key amount limit (window_ttl b.window) (window_sticky b.window) s in
      elim step.0 [
        | none ↦ (unavailable_result wk, (step.1, t))
        | some (reserved, prior) ↦
            granted_or_not reserved key amount h
              (record {
                outcome = budget_within_limit;
                spend_to_date = cents_to_str prior;
                limit = b.limit;
                window_key = wk;
              })
              (step.1, t)
      ]

  -- `Reserver.Reserve`
  unfoldable pub reserve :
      Platform
      → ℕ
      → Time
      → Str
      → Str
      → AuthorizeRequest
      → BudgetDecl
      → S × T
      → BudgetResult × (S × T)
  reserve platform ttl now org id req b w =
      let t = reserve_time platform now req in
      let wk = window_key platform b.window t in
      elim (to_cents req.amount) [
        | none ↦ (unavailable_result wk, w)
        | some amount ↦ elim (to_cents b.limit) [
          | none ↦ (unavailable_result wk, w)
          | some limit ↦
              reserve_cents (counter_key org b.id wk) wk amount limit
                (new_hold t ttl org id wk req b) b w
        ]
      ]

  -- `Reserver.Capture`
  unfoldable pub capture_hold : Str → Str → S × T → Returned Hold × (S × T)
  capture_hold org id (s, t) = let step = holds.capture org id t in (step.0, (s, step.1))

  -- The counter gives back what a hold reserved, if its amount can be read.
  unfoldable pub give_back : Hold → S → S
  give_back h s = elim (to_cents h.amount) [
    | none ↦ s
    | some amount ↦ (counter.release (hold_key h) amount s).1
  ]

  after_void : Returned (Hold × Bool) → S → Returned Hold × S
  after_void (ok (h, released)) s = (ok h, if released then give_back h s else s)
  after_void (err e) s = (err e, s)

  -- `Reserver.Void`
  unfoldable pub void_hold : Str → Str → S × T → Returned Hold × (S × T)
  unfolding after_void
  void_hold org id (s, t) =
      let step = holds.void org id t in let back = after_void step.0 s in (back.0, (back.1, step.1))

  -- The loop of `ReleaseExpired`.
  unfoldable pub give_back_all : List Hold → S → S
  give_back_all [] s = s
  give_back_all (h ∷ due) s = give_back_all due (give_back h s)

  -- `Reconciler.ReleaseExpired`: how many were released, `none` on a failure of the ledger.
  unfoldable pub release_expired : Time → ℕ → S × T → Option (List Hold) × (S × T)
  release_expired now batch (s, t) =
      let step = holds.expire_due now batch t in
      elim step.0 [
        | none ↦ (none, (s, step.1))
        | some due ↦ (some due, (give_back_all due s, step.1))
      ]

  -- The sum of `RebuildWindow`, over amounts that can be read.
  unfoldable pub sum_cents : ℤ → List Hold → ℤ
  sum_cents sum [] = sum
  sum_cents sum (h ∷ active) =
      sum_cents (elim (to_cents h.amount) [ none ↦ sum | some c ↦ add64 sum c ]) active

  -- `Reconciler.RebuildWindow`; the Boolean says whether it succeeded.
  unfoldable pub rebuild_window : Str → Str → Str → Str → S × T → Bool × (S × T)
  rebuild_window org budget_id wk window (s, t) =
      let step = holds.list_active org budget_id wk t in
      elim step.0 [
        | none ↦ (false, (s, step.1))
        | some active ↦
            let written =
              counter.set (counter_key org budget_id wk) (sum_cents (pos 0) active)
                (window_ttl window) s in
            (written.0, (written.1, step.1))
      ]
