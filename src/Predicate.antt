-- ===== src/Predicate.antt =====
-- The local predicates (services/authorize-svc/internal/engine/predicate.go, predicates.go,
-- construct.go): the evaluation vector, the six predicate types as one data type, which stands
-- for the interface `Predicate`, and their methods.
pub mod Money
pub mod Rules
use borges_labs.Base.{
  ℕ, ◌/◌, ◌%◌, Bool, true, false, ◌&&◌, ◌||◌, not, Option, none, some, List, [], ◌∷◌, Str, str_eq,
  is_empty, contains, Dict, lookup, ltb, leb, ◌==◌, if◌then◌else◌,
}
use borges_labs.Clock.{Time, minute_of_day, weekday, Rat, Platform}
use borges_labs.Contracts.{
  PredicateType, TargetType, vendor, Target, text, texts, clock, day_name, target_type, number,
  message, Message, plain, sprintf, Evidence,
}
use borges_labs.Verdict.{Outcome, satisfied, denied, flagged}
use Money.{parse_money, rat_gt}

pub record Input : Type 0 where
  pub agent_id : Str
  pub action : Str
  pub amount_raw : Str
  pub amount : Option Rat
  pub currency : Str
  pub target : Target
  pub jurisdiction : Str
  pub evaluated_at : Time

pub record Result : Type 0 where
  pub outcome : Outcome
  pub reason : Message
  pub evidence : Evidence

-- The fields that every predicate shares.
pub record RuleBase : Type 0 where
  pub id : Str
  pub agents : List Str

pub data Predicate : Type 0 where
  per_transaction_limit : RuleBase → (max_raw : Str) → (currency : Str) → Predicate
  vendor_allowlist : RuleBase → (vendors : List Str) → Predicate
  vendor_blocklist : RuleBase → (vendors : List Str) → Predicate
  agent_permission :
      RuleBase → (allowed_actions : List Str) → (allowed_targets : List Str) → Predicate
  time_window : RuleBase → (start_minute : ℕ) → (end_minute : ℕ) → (weekdays : List ℕ) → Predicate
  jurisdiction_currency : RuleBase → (allowed : Dict (List Str)) → Predicate

abbrev pub base : Predicate → RuleBase
base (per_transaction_limit b _ _) = b
base (vendor_allowlist b _) = b
base (vendor_blocklist b _) = b
base (agent_permission b _ _) = b
base (time_window b _ _ _) = b
base (jurisdiction_currency b _) = b

abbrev pub rule_id : Predicate → Str
rule_id p = (base p).id

abbrev pub type_of : Predicate → PredicateType
type_of (per_transaction_limit _ _ _) = PredicateType.per_transaction_limit
type_of (vendor_allowlist _ _) = PredicateType.vendor_allowlist
type_of (vendor_blocklist _ _) = PredicateType.vendor_blocklist
type_of (agent_permission _ _ _) = PredicateType.agent_permission
type_of (time_window _ _ _ _) = PredicateType.time_window
type_of (jurisdiction_currency _ _) = PredicateType.jurisdiction_currency

-- `base.AppliesTo`, and with the same body `BudgetDecl.appliesTo`.
unfoldable pub applies_to : List Str → Str → Bool
applies_to agents agent = if is_empty agents then true else contains agents agent

abbrev pub is_vendor : TargetType → Bool
is_vendor vendor = true
is_vendor _ = false

unfoldable pub within_window : ℕ → ℕ → ℕ → Bool
within_window minute start end =
    if start == end
    then true
    else if ltb start end
    then leb start minute && ltb minute end
    else leb start minute || ltb minute end

unfoldable pub contains_int : List ℕ → ℕ → Bool
contains_int [] v = false
contains_int (x ∷ list) v = x == v || contains_int list v

-- `in.Amount == nil`, then the comparison of `PerTransactionLimit.Evaluate`.
compare_amount : Str → Rat → Input → Option Rat → Result
compare_amount max_raw max i none = record {
  outcome = flagged;
  reason = plain "transaction amount is unparseable";
  evidence = ("amount", text i.amount_raw) ∷ [];
}
compare_amount max_raw max i (some amount) =
    let ev : Evidence =
      ("amount", text i.amount_raw)
      ∷ ("limit", text max_raw)
      ∷ ("currency", text i.currency)
      ∷ [] in
    let args = text i.amount_raw ∷ text max_raw ∷ text i.currency ∷ [] in
    if rat_gt amount max
    then record {
      outcome = denied;
      reason = sprintf "amount=%s exceeds per-transaction limit=%s %s" args;
      evidence = ev;
    }
    else record {
      outcome = satisfied;
      reason = sprintf "amount=%s within per-transaction limit=%s %s" args;
      evidence = ev;
    }

unfoldable pub evaluate_limit : Platform → Str → Str → Input → Result
unfolding compare_amount
evaluate_limit platform max_raw currency i = elim (parse_money platform max_raw) [
  | none ↦ record {
    outcome = flagged;
    reason = plain "per-transaction limit is misconfigured (unparseable amount)";
    evidence = ("limit", text max_raw) ∷ [];
  }
  | some max ↦
      if not (is_empty currency) && not (str_eq currency i.currency)
      then record {
        outcome = flagged;
        reason =
            sprintf "limit is in %s but transaction is in %s; cannot compare"
              (text currency ∷ text i.currency ∷ []);
        evidence = ("limit_currency", text currency) ∷ ("txn_currency", text i.currency) ∷ [];
      }
      else compare_amount max_raw max i i.amount
]

unfoldable pub evaluate_allowlist : List Str → Input → Result
evaluate_allowlist vendors i =
    let v = text i.target.id in
    if not (is_vendor i.target.type)
    then record {
      outcome = satisfied;
      reason = plain "target is not a vendor; allowlist not applicable";
      evidence = ("target_type", target_type i.target.type) ∷ [];
    }
    else if contains vendors i.target.id
    then record {
      outcome = satisfied;
      reason = sprintf "vendor %q is allowlisted" (v ∷ []);
      evidence = ("vendor", v) ∷ [];
    }
    else record {
      outcome = denied;
      reason = sprintf "vendor %q is not on the allowlist" (v ∷ []);
      evidence = ("vendor", v) ∷ [];
    }

unfoldable pub evaluate_blocklist : List Str → Input → Result
evaluate_blocklist vendors i =
    let v = text i.target.id in
    if not (is_vendor i.target.type)
    then record {
      outcome = satisfied;
      reason = plain "target is not a vendor; blocklist not applicable";
      evidence = ("target_type", target_type i.target.type) ∷ [];
    }
    else if contains vendors i.target.id
    then record {
      outcome = denied;
      reason = sprintf "vendor %q is blocklisted" (v ∷ []);
      evidence = ("vendor", v) ∷ [];
    }
    else record {
      outcome = satisfied;
      reason = sprintf "vendor %q is not blocklisted" (v ∷ []);
      evidence = ("vendor", v) ∷ [];
    }

unfoldable pub evaluate_permission : List Str → List Str → Input → Result
evaluate_permission allowed_actions allowed_targets i =
    if not (is_empty allowed_actions) && not (contains allowed_actions i.action)
    then record {
      outcome = denied;
      reason = sprintf "agent %q may not perform action %q" (text i.agent_id ∷ text i.action ∷ []);
      evidence = ("action", text i.action) ∷ ("allowed_actions", texts allowed_actions) ∷ [];
    }
    else if not (is_empty allowed_targets) && not (contains allowed_targets i.target.id)
    then record {
      outcome = denied;
      reason =
          sprintf "agent %q may not act on target %q" (text i.agent_id ∷ text i.target.id ∷ []);
      evidence = ("target", text i.target.id) ∷ ("allowed_targets", texts allowed_targets) ∷ [];
    }
    else record {
      outcome = satisfied;
      reason =
          sprintf "agent %q is permitted action %q on target %q"
            (text i.agent_id ∷ text i.action ∷ text i.target.id ∷ []);
      evidence = ("action", text i.action) ∷ ("target", text i.target.id) ∷ [];
    }

unfoldable pub evaluate_time : ℕ → ℕ → List ℕ → Input → Result
evaluate_time start_minute end_minute weekdays i =
    let minute = minute_of_day i.evaluated_at in
    let day = weekday i.evaluated_at in
    let ev : Evidence =
      ("evaluated_at", clock minute)
      ∷ (
        "window",
        message (
            sprintf "%02d:%02d-%02d:%02d" (
              number (start_minute / 60)
              ∷ number (start_minute % 60)
              ∷ number (end_minute / 60)
              ∷ number (end_minute % 60)
              ∷ [])),
      )
      ∷ ("weekday", day_name day)
      ∷ [] in
    if not (is_empty weekdays) && not (contains_int weekdays day)
    then record {
      outcome = denied;
      reason = sprintf "%s is outside the allowed weekdays" (day_name day ∷ []);
      evidence = ev;
    }
    else if not (within_window minute start_minute end_minute)
    then record {
      outcome = denied;
      reason = sprintf "%s is outside the allowed time window" (clock minute ∷ []);
      evidence = ev;
    }
    else record {
      outcome = satisfied;
      reason = sprintf "%s is within the allowed time window" (clock minute ∷ []);
      evidence = ev;
    }

-- The branches of `JurisdictionCurrency.Evaluate` on the entry of the map.
evaluate_allowed : Option (List Str) → Input → Result
evaluate_allowed none i = record {
  outcome = satisfied;
  reason = plain "jurisdiction is unconstrained";
  evidence = ("jurisdiction", text i.jurisdiction) ∷ ("currency", text i.currency) ∷ [];
}
evaluate_allowed (some allowed) i =
    let ev : Evidence =
      ("jurisdiction", text i.jurisdiction)
      ∷ ("currency", text i.currency)
      ∷ ("allowed", texts allowed)
      ∷ [] in
    let args = text i.currency ∷ text i.jurisdiction ∷ [] in
    if contains allowed i.currency
    then record {
      outcome = satisfied;
      reason = sprintf "currency %s is permitted in %s" args;
      evidence = ev;
    }
    else record {
      outcome = denied;
      reason = sprintf "currency %s is not permitted in %s" args;
      evidence = ev;
    }

unfoldable pub evaluate_jurisdiction : Dict (List Str) → Input → Result
unfolding evaluate_allowed
evaluate_jurisdiction allowed i =
    if is_empty i.jurisdiction
    then evaluate_allowed none i
    else evaluate_allowed (lookup i.jurisdiction allowed) i

-- The method `Evaluate` of the interface.
unfoldable pub evaluate : Platform → Predicate → Input → Result
evaluate platform (per_transaction_limit _ max_raw currency) i =
    evaluate_limit platform max_raw currency i
evaluate platform (vendor_allowlist _ vendors) i = evaluate_allowlist vendors i
evaluate platform (vendor_blocklist _ vendors) i = evaluate_blocklist vendors i
evaluate platform (agent_permission _ actions targets) i = evaluate_permission actions targets i
evaluate platform (time_window _ start end weekdays) i = evaluate_time start end weekdays i
evaluate platform (jurisdiction_currency _ allowed) i = evaluate_jurisdiction allowed i
