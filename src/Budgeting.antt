-- ===== src/Budgeting.antt =====
-- The budget part of a decision (services/authorize-svc/internal/engine/engine.go, lines 130 to
-- 223 and 308 to 332): the result and the row of a reservation, the obligation, and how a
-- reservation is folded into the results so far.
use Prim.Native.String.{String}
use borges_labs.Base.{
  ℕ, ◌+◌, ◌/◌, true, Option, none, some, List, [], ◌∷◌, ◌++◌, Str, ltb, if◌then◌else◌,
}
use borges_labs.Clock.{Time, second, Platform}
use borges_labs.Contracts.{
  AuthorizeRequest, PredicateType, result_satisfied, result_denied, result_unavailable, Value, text,
  number, duration, sprintf, Evidence, MatchedRule, Obligation,
}
use borges_labs.Verdict.{
  satisfied, denied, unavailable, fail_closed_review, unspecified, PredicateResult,
}
use borges_labs.Policies.{
  BudgetDecl, BudgetOutcome, budget_within_limit, budget_exceeded, budget_unavailable, BudgetResult,
}

-- 15 minutes.
abbrev pub default_hold_ttl : ℕ
default_hold_ttl = 900000000000

unfoldable pub hold_ttl_of : ℕ → ℕ
hold_ttl_of ttl = if ltb 0 ttl then ttl else default_hold_ttl

unfoldable pub budget_predicate_result : BudgetDecl → BudgetOutcome → PredicateResult
budget_predicate_result b budget_within_limit = record {
  rule_id = b.id;
  enriched = true;
  outcome = satisfied;
  fail_mode = unspecified;
}
budget_predicate_result b budget_exceeded = record {
  rule_id = b.id;
  enriched = true;
  outcome = denied;
  fail_mode = unspecified;
}
budget_predicate_result b budget_unavailable = record {
  rule_id = b.id;
  enriched = true;
  outcome = unavailable;
  fail_mode = fail_closed_review;
}

-- `if value != "" { ev[name] = value }`
abbrev pub entry_unless_empty : String → Str → Evidence → Evidence
entry_unless_empty name [] rest = rest
entry_unless_empty name (c ∷ s) rest = (name, text (c ∷ s)) ∷ rest

budget_evidence : BudgetDecl → AuthorizeRequest → BudgetResult → Evidence
budget_evidence b req res =
    ("budget_id", text b.id)
    ∷ ("window", text b.window)
    ∷ ("amount", text req.amount)
    ∷ ("currency", text req.currency)
    ∷ entry_unless_empty "window_key" res.window_key (
        entry_unless_empty "spend_to_date" res.spend_to_date
          (entry_unless_empty "limit" res.limit []))

budget_numbers : AuthorizeRequest → BudgetResult → List Value
budget_numbers req res =
    text res.spend_to_date
    ∷ text req.amount
    ∷ text res.limit
    ∷ text req.currency
    ∷ text res.window_key
    ∷ []

budget_row : BudgetOutcome → BudgetDecl → AuthorizeRequest → BudgetResult → MatchedRule
budget_row budget_within_limit b req res = record {
  rule_id = b.id;
  type = PredicateType.rolling_budget;
  result = result_satisfied;
  detail =
      sprintf "spend_to_date=%s + amount=%s <= limit=%s %s (window=%s)" (budget_numbers req res);
  evidence = budget_evidence b req res;
}
budget_row budget_exceeded b req res = record {
  rule_id = b.id;
  type = PredicateType.rolling_budget;
  result = result_denied;
  detail =
      sprintf "spend_to_date=%s + amount=%s > limit=%s %s (window=%s)" (budget_numbers req res);
  evidence = budget_evidence b req res;
}
budget_row budget_unavailable b req res = record {
  rule_id = b.id;
  type = PredicateType.rolling_budget;
  result = result_unavailable;
  detail = sprintf "budget %q counter unavailable; fail-closed to REVIEW" (text b.id ∷ []);
  evidence = budget_evidence b req res;
}

unfoldable pub budget_matched_rule : BudgetDecl → AuthorizeRequest → BudgetResult → MatchedRule
unfolding budget_row budget_evidence budget_numbers
budget_matched_rule b req res = budget_row res.outcome b req res

unfoldable pub capture_within_obligation :
    Platform → ℕ → Time → BudgetDecl → AuthorizeRequest → Str → Str → Obligation
capture_within_obligation platform ttl now b req evaluated_at decision_id =
    let start : Time = elim (platform.parse_time evaluated_at) [ some t ↦ t | none ↦ now ] in
    record {
      type = "capture_within";
      detail =
          sprintf
            "Budget %q hold placed for %s %s; capture on payment success or void on failure within %s (else it auto-expires)."
            (text b.id ∷ text req.amount ∷ text req.currency ∷ duration ttl ∷ []);
      params =
          ("budget_id", text b.id)
          ∷ ("window", text b.window)
          ∷ ("amount", text req.amount)
          ∷ ("currency", text req.currency)
          ∷ ("ttl_seconds", number (ttl / second))
          ∷ ("expires_at", text (platform.format_time (start + ttl)))
          ∷ ("hold_ref", text decision_id)
          ∷ [];
    }

-- What the budget step leaves behind: the results and rows so far, and the budget that a hold
-- is declared for, `none` while `budgetHeld` is false.
pub record Tally : Type 0 where
  pub results : List PredicateResult
  pub matched : List MatchedRule
  pub held : Option BudgetDecl

abbrev pub held_if : BudgetOutcome → BudgetDecl → Option BudgetDecl
held_if budget_within_limit b = some b
held_if budget_exceeded b = none
held_if budget_unavailable b = none

unfoldable pub fold_reservation : AuthorizeRequest → BudgetDecl → Tally → BudgetResult → Tally
fold_reservation req b t res = record {
  results = t.results ++ budget_predicate_result b res.outcome ∷ [];
  matched = t.matched ++ budget_matched_rule b req res ∷ [];
  held = held_if res.outcome b;
}
