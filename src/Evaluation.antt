-- ===== src/Evaluation.antt =====
-- The pure evaluation of a policy (services/authorize-svc/internal/engine/engine.go, lines 334 to
-- 402): the input vector, the loop over the local rules, and the assembly of a decision.

use borges_labs.Base.{false, none, some, List, [], ◌∷◌, Str, if◌then◌else◌}
use borges_labs.Clock.{Platform}
use borges_labs.Contracts.{AuthorizeRequest, MatchedRule, Signature, Decision}
use borges_labs.Verdict.{Verdict, unspecified, PredicateResult, combine}
use borges_labs.Predicate.{Predicate, Input, rule_id, base, type_of, applies_to, evaluate}
use borges_labs.Predicate.Money.{parse_money}
use borges_labs.Policies.{Policy}
use borges_labs.Explain.{to_contract_result, to_contract_verdict, assemble_explanation}

unfoldable pub build_input : Platform → AuthorizeRequest → Str → Input
build_input platform req evaluated_at = record {
  agent_id = req.agent_id;
  action = req.action;
  amount_raw = req.amount;
  amount = parse_money platform req.amount;
  currency = req.currency;
  target = req.target;
  jurisdiction = req.jurisdiction;
  evaluated_at = elim (platform.parse_time evaluated_at) [ some t ↦ t | none ↦ 0 ];
}

-- One round of the loop of `evalLocal`, for a rule that applies.
unfoldable pub local_result : Platform → Predicate → Input → PredicateResult
local_result platform p i = record {
  rule_id = rule_id p;
  enriched = false;
  outcome = (evaluate platform p i).outcome;
  fail_mode = unspecified;
}

unfoldable pub local_matched : Platform → Predicate → Input → MatchedRule
local_matched platform p i = record {
  rule_id = rule_id p;
  type = type_of p;
  result = to_contract_result (evaluate platform p i).outcome;
  detail = (evaluate platform p i).reason;
  evidence = (evaluate platform p i).evidence;
}

unfoldable pub eval_local :
    Platform → List Predicate → Input → List PredicateResult × List MatchedRule
eval_local platform [] i = ([], [])
eval_local platform (p ∷ ps) i =
    let rest = eval_local platform ps i in
    if applies_to (base p).agents i.agent_id
    then (local_result platform p i ∷ rest.0, local_matched platform p i ∷ rest.1)
    else rest

abbrev pub no_signature : Signature
no_signature = record { algorithm = ""; key_id = []; value = []; canonicalization = "" }

unfoldable pub assemble_decision : Str → Verdict → Str → List MatchedRule → Str → Decision
assemble_decision id verdict version matched evaluated_at = record {
  decision_id = id;
  verdict = to_contract_verdict verdict;
  policy_version_hash = version;
  explanation = assemble_explanation verdict matched;
  obligations = [];
  latency_ms = 0;
  evaluated_at = evaluated_at;
  signature = no_signature;
  shadow = false;
}

-- `Evaluate`, the pure core, which the simulator uses too.
unfoldable pub evaluate_policy : Platform → Policy → AuthorizeRequest → Str → Str → Decision
unfolding eval_local assemble_decision
evaluate_policy platform pol req evaluated_at id =
    let (results, matched) =
      eval_local platform pol.predicates (build_input platform req evaluated_at) in
    assemble_decision id (combine results) pol.version matched evaluated_at
