-- ===== src/Explain.antt =====
-- The explanation of a decision (services/authorize-svc/internal/engine/engine.go, lines 404 to
-- 477): the summary that names the deciding rule, and the maps to the contract's enumerations.
use borges_labs.Base.{Bool, true, false, Option, none, some, List, [], ◌∷◌, length, if◌then◌else◌}
use borges_labs.Contracts.{
  RuleResult, result_satisfied, result_denied, result_review, result_unavailable, text, number,
  Message, plain, sprintf, Value, message, MatchedRule, Explanation, verdict_approve, verdict_deny,
  verdict_review,
}
use borges_labs.Contracts as Contract
use borges_labs.Verdict.{
  Verdict, approve, deny, review, Outcome, satisfied, denied, flagged, unavailable,
}

unfoldable pub to_contract_result : Outcome → RuleResult
to_contract_result satisfied = result_satisfied
to_contract_result denied = result_denied
to_contract_result flagged = result_review
to_contract_result unavailable = result_unavailable

unfoldable pub to_contract_verdict : Verdict → Contract.Verdict
to_contract_verdict approve = verdict_approve
to_contract_verdict deny = verdict_deny
to_contract_verdict review = verdict_review

-- `m.Result == want`
abbrev pub same_result : RuleResult → RuleResult → Bool
same_result result_satisfied result_satisfied = true
same_result result_denied result_denied = true
same_result result_review result_review = true
same_result result_unavailable result_unavailable = true
same_result _ _ = false

unfoldable pub first_with_result : List MatchedRule → RuleResult → Option MatchedRule
first_with_result [] want = none
first_with_result (m ∷ ms) want =
    if same_result m.result want then some m else first_with_result ms want

-- The branch of `summarize` for a verdict with rules that drove it: the first rule with the
-- first result, else the first with UNAVAILABLE, else the bare summary.
first_reason :
    Option MatchedRule
    → Option MatchedRule
    → (MatchedRule → Message)
    → (MatchedRule → Message)
    → Message
    → Message
first_reason (some r) _ named _ _ = named r
first_reason none (some r) _ incomplete _ = incomplete r
first_reason none none _ _ bare = bare

unfoldable pub summarize : Verdict → List MatchedRule → Message
unfolding first_reason first_with_result
summarize deny [] = plain "No applicable policy rule granted authority; denied by default."
summarize deny (m ∷ ms) =
    first_reason (first_with_result (m ∷ ms) result_denied)
      (first_with_result (m ∷ ms) result_unavailable)
      (λ r. sprintf "Denied by rule %q: %s" (text r.rule_id ∷ message r.detail ∷ []))
      (λ r. sprintf "Denied: rule %q could not complete and is fail-closed." (text r.rule_id ∷ []))
      (plain "Denied.")
summarize review ms =
    first_reason (first_with_result ms result_review) (first_with_result ms result_unavailable)
      (λ r. sprintf "Flagged for review by rule %q: %s" (text r.rule_id ∷ message r.detail ∷ []))
      (λ r. sprintf "Flagged for review: rule %q could not complete." (text r.rule_id ∷ []))
      (plain "Flagged for review.")
summarize approve ms =
    sprintf "Approved: all %d applicable rule(s) satisfied." (number (length ms) ∷ [])

unfoldable pub assemble_explanation : Verdict → List MatchedRule → Explanation
assemble_explanation v matched = record { summary = summarize v matched; matched_rules = matched }
