-- ===== src/Tests/Decisions.antt =====
-- Decisions of the engine: an approval that holds the budget, a decline, a shadow run, and an
-- organisation whose policy cannot be loaded.
use borges_labs.Base.{
  ◌↔◌, ◌≡◌, refl, inr, Bool, true, false, [], str, some, is_empty, scale, str_eq, lookup, contains,
  add64, wrap64, ◌+ℤ◌, mul64,
}
use borges_labs.Contracts.{Decision, verdict_approve}
use borges_labs.Verdict.{approve, deny, combine, satisfied, effective_outcome}
use borges_labs.Policies.{
  Policy, Result, ok, err, load_failed, budget_within_limit, applicable_budget, first_budget,
}
use borges_labs.Predicate.{Predicate, applies_to, evaluate, evaluate_limit, evaluate_allowlist}
use borges_labs.Predicate.Money.{parse_money, rat_gt, cut_dot, read_decimal, read_digits}
use borges_labs.Explain.{to_contract_verdict}
use borges_labs.Cents.{to_cents, parse_int, window_key, counter_key}
use borges_labs.Counter.{value, mem_reserve, mem_counter}
use borges_labs.Hold.{place, mem_store}
use borges_labs.Reserver.{reserve, reserve_time, reserve_cents, record_hold}
use borges_labs.Engine.{Engine, authorize, resolve_policy, decide, finish, budget_step}
use borges_labs.Budgeting.{fold_reservation, budget_predicate_result}
use borges_labs.Evaluation.{
  assemble_decision, eval_local, local_result, build_input, evaluate_policy,
}
use borges_labs.Serving.{Principal, issued, handle_authorize, idempotent_replay, mem_lookup}
use borges_labs.Serving.Retry.{handle}
use borges_labs.Engine.Authorized.{local_tally, authorize_enforced, authorize_advisory}
use borges_labs.Tests.Data.{
  noon, noon_text, platform, org, request, policy, closed_policy, World, engine, decision_of, daily,
}
use borges_labs.Contracts.{AuthorizeRequest}
use borges_labs.Policies.{BudgetResult}
use borges_labs.Budgeting.{Tally}
use borges_labs.Engine.Local.{Applicable, evaluate_policy_iff}

abbrev pub decided : Policy → Bool → Result Decision × World
decided p shadow = authorize platform (engine p) noon 7 (str "d1") org request shadow ([], [])

served : (p : Policy) → resolve_policy (engine p) org ([], []) ≡ (ok p, ([], []))
unfolding resolve_policy
served p = refl

decides :
    (p : Policy) (shadow : Bool) → (decided p shadow).0 ≡ ok (decision_of (decided p shadow).0)
unfolding authorize resolve_policy decide finish
decides p shadow = refl

abbrev reserve_daily : AuthorizeRequest → World → BudgetResult × World
reserve_daily req w =
    reserve mem_counter (mem_store noon) platform 900000000000 noon org (str "d1") req daily w

applicable : applicable_budget policy request.agent_id ≡ some daily
unfolding applicable_budget first_budget applies_to contains str_eq
applicable = refl

local_denies : combine (local_tally platform noon request closed_policy).results ≡ deny
unfolding combine eval_local applies_to local_result evaluate evaluate_limit evaluate_allowlist
    parse_money str_eq build_input rat_gt scale contains cut_dot read_decimal read_digits
    effective_outcome
local_denies = refl

approved_verdict : (decision_of (decided policy false).0).verdict ≡ verdict_approve
unfolding authorize resolve_policy decide finish assemble_decision to_contract_verdict combine
    budget_step eval_local applies_to local_result evaluate evaluate_limit evaluate_allowlist
    parse_money str_eq build_input rat_gt scale lookup contains fold_reservation
    budget_predicate_result applicable_budget first_budget cut_dot read_decimal read_digits
    effective_outcome reserve reserve_time reserve_cents record_hold to_cents parse_int window_key
    counter_key value mem_reserve place add64 wrap64 ◌+ℤ◌ mul64
approved_verdict = refl

authorize_enforced_example :
    (combine (local_tally platform noon request policy).results ≡ approve)
    × ((reserve_daily request ([], [])).0.outcome ≡ budget_within_limit)
    × ((decided policy false).1 ≡ (reserve_daily request ([], [])).1)
    × (is_empty (decision_of (decided policy false).0).obligations ≡ false)
authorize_enforced_example =
    authorize_enforced platform (engine policy) noon 7 (str "d1") org request ([], []) {b = daily}
      {d = decision_of (decided policy false).0} (served policy) refl applicable
      (decides policy false) approved_verdict

local_approves : combine (local_tally platform noon request policy).results ≡ approve
unfolding combine eval_local applies_to local_result evaluate evaluate_limit evaluate_allowlist
    parse_money str_eq build_input rat_gt scale contains cut_dot read_decimal read_digits
    effective_outcome
local_approves = refl

-- The policy whose allowlist is empty declines: nothing is reserved.
authorize_advisory_example :
    ((decided closed_policy false).1 ≡ ([], []))
    × ((decision_of (decided closed_policy false).0).verdict
        ≡ to_contract_verdict (combine (local_tally platform noon request closed_policy).results))
    × ((decision_of (decided closed_policy false).0).shadow ≡ false)
    × (is_empty (decision_of (decided closed_policy false).0).obligations ≡ true)
authorize_advisory_example =
    authorize_advisory platform (engine closed_policy) noon 7 (str "d1") org request false ([], [])
      {d = decision_of (decided closed_policy false).0} (served closed_policy)
      (inr (λ h. cc (h, local_denies))) (decides closed_policy false)

abbrev unserved : Engine World
unserved = record (engine policy) { provider = some (λ o w. (err load_failed, w)) }

abbrev tally : Tally
tally = local_tally platform noon request policy

evaluate_policy_iff_example :
    ((evaluate_policy platform closed_policy request noon_text (str "d1")).verdict
      ≡ verdict_approve)
    ↔ (((p : Predicate) × Applicable platform
            (build_input platform request noon_text)
            closed_policy.predicates
            p)
        × ((p : Predicate)
            → Applicable platform
                (build_input platform request noon_text)
                closed_policy.predicates
                p
            → (evaluate platform p (build_input platform request noon_text)).outcome ≡ satisfied))
evaluate_policy_iff_example =
    evaluate_policy_iff platform closed_policy request noon_text (str "d1")

abbrev caller : Principal
caller = record { org_id = org; shadow = false }

issues :
    (handle platform (engine policy) noon 7 (str "d1") caller request (([], []), [])).0
    ≡ issued (decision_of (decided policy false).0)
unfolding handle_authorize idempotent_replay mem_lookup lookup authorize resolve_policy decide
    finish
issues = refl
