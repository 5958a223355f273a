-- ===== src/Engine/Authorized.antt =====
-- `Engine.Authorize` as a whole: approvals, advisory requests, and requests without a policy.
use borges_labs.Base.{
  ℕ, ◌≡◌, refl, sym, ap, ◌∙◌, ◌≢◌, ◌⊎◌, inl, inr, Bool, true, false, not, [], arith, Str, none,
  some, is_empty, is_some, if◌then◌else◌,
}
use borges_labs.Clock.{Time, Platform}
use borges_labs.Contracts.{AuthorizeRequest, Decision, verdict_approve}
use borges_labs.Verdict.{Verdict, approve, deny, review, combine}
use borges_labs.Policies.{
  BudgetDecl, Policy, applicable_budget, BudgetOutcome, budget_within_limit, BudgetResult, Error,
  no_active_bundle, Result, ok, err,
}
use borges_labs.Explain.{to_contract_verdict}
use borges_labs.Engine.{Engine, budget_step, resolve_policy, decide, authorize}
use borges_labs.Budgeting.{Tally, held_if}
use borges_labs.Evaluation.{eval_local, build_input}
use borges_labs.Engine.Budgeted.{
  reserved_verdict, budget_step_untouched, budget_step_reserves, Carries, finish-Carries,
}

-- The evaluation time that a decision is stamped with.
abbrev pub stamp : Platform → Time → AuthorizeRequest → Str
stamp platform start req =
    if is_empty req.evaluated_at then platform.format_time start else req.evaluated_at

-- The results and rows of the local rules, before the budget.
abbrev pub local_tally : Platform → Time → AuthorizeRequest → Policy → Tally
local_tally platform start req pol = record {
  results =
      (eval_local platform pol.predicates (build_input platform req (stamp platform start req))).0;
  matched =
      (eval_local platform pol.predicates (build_input platform req (stamp platform start req))).1;
  held = none;
}

approve-cases : (v : Verdict) → (v ≡ approve) ⊎ (v ≢ approve)
approve-cases approve = inl refl
approve-cases deny = inr (λ h. cc)
approve-cases review = inr (λ h. cc)

to_contract-approve : (v : Verdict) → to_contract_verdict v ≡ verdict_approve → v ≡ approve
unfolding to_contract_verdict
to_contract-approve v h = ground arith

reserved-approve : (o : BudgetOutcome) → reserved_verdict o ≡ approve → o ≡ budget_within_limit
reserved-approve o h = ground arith

module _ {W : Type 0} (platform : Platform) (e : Engine W) (start : Time) (latency : ℕ)
    (id org : Str) (req : AuthorizeRequest) where
  authorize_lem :
      (shadow : Bool) (w : W) {w1 : W} {pol : Policy}
      → resolve_policy e org w ≡ (ok pol, w1)
      → authorize platform e start latency id org req shadow w
        ≡ decide platform e start latency id org req shadow pol w1
  unfolding authorize
  authorize_lem shadow w {w1} {pol} h =
      rw (h, authorize) (ap (λ x. decide platform e start latency id org req shadow pol x.1) h)

  decide-Carries :
      (shadow : Bool) (pol : Policy) (w : W) {d : Decision}
      → (decide platform e start latency id org req shadow pol w).0 ≡ ok d
      → Carries shadow id pol
          (budget_step e org id req shadow pol (local_tally platform start req pol) w).0
          d
  unfolding decide
  decide-Carries shadow pol w h =
      finish-Carries platform e start latency id req shadow pol (stamp platform start req) _ h

  decide_state :
      (shadow : Bool) (pol : Policy) (w : W)
      → (decide platform e start latency id org req shadow pol w).1
        ≡ (budget_step e org id req shadow pol (local_tally platform start req pol) w).1
  unfolding decide
  decide_state shadow pol w = refl

  -- Where a policy is resolved, a reserver is wired and a budget governs the agent, a request
  -- that is not a shadow request and ends in APPROVE rests on local rules that approve and on a
  -- reservation within the limit; the state is the one that the reservation left, and the
  -- decision carries an obligation.
  pub authorize_enforced :
      (w : W) {w1 : W} {pol : Policy} {b : BudgetDecl} {d : Decision}
      {reserve : Str → Str → AuthorizeRequest → BudgetDecl → W → BudgetResult × W}
      → resolve_policy e org w ≡ (ok pol, w1)
      → e.reserver ≡ some reserve
      → applicable_budget pol req.agent_id ≡ some b
      → (authorize platform e start latency id org req false w).0 ≡ ok d
      → d.verdict ≡ verdict_approve
      → (combine (local_tally platform start req pol).results ≡ approve)
        × ((reserve org id req b w1).0.outcome ≡ budget_within_limit)
        × ((authorize platform e start latency id org req false w).1 ≡ (reserve org id req b w1).1)
        × (is_empty d.obligations ≡ false)
  authorize_enforced w {w1} {pol} {b} {d} {reserve} p r a o v =
      let same = authorize_lem false w p in
      let d_carries = decide-Carries false pol w1 (sym (ap (λ x. x.0) same) ∙ o) in
      let t = local_tally platform start req pol in
      elim (approve-cases (combine t.results)) [
        | inr declined ↦ absurd (
            declined (
              to_contract-approve _ (
                ap (λ (s : Tally × W). to_contract_verdict (combine s.0.results))
                  (sym (budget_step_untouched e org id req false pol t w1 (inr declined)))
                ∙ sym d_carries.0
                ∙ v)))
        | inl approved ↦
            let (folded, kept, state) = budget_step_reserves e org id req pol t w1 r a approved in
            let within =
              reserved-approve _ (
                to_contract-approve _
                  (ap to_contract_verdict (sym folded) ∙ sym d_carries.0 ∙ v)) in
            (
              approved,
              within,
              ap (λ x. x.1) same ∙ decide_state false pol w1 ∙ state,
              d_carries.5
                  ∙ ap (λ x. not (is_some x)) kept
                  ∙ ap (λ x. not (is_some (held_if x b))) within,
            )
      ]

  -- Where a policy is resolved, a decision on a shadow request, or on one that the local rules do
  -- not approve, reserves nothing: the state is the one that resolving the policy left, the
  -- verdict is that of the local rules alone, the shadow mark is the request's, and there is no
  -- obligation.
  pub authorize_advisory :
      (shadow : Bool) (w : W) {w1 : W} {pol : Policy} {d : Decision}
      → resolve_policy e org w ≡ (ok pol, w1)
      → (shadow ≡ true) ⊎ (combine (local_tally platform start req pol).results ≢ approve)
      → (authorize platform e start latency id org req shadow w).0 ≡ ok d
      → ((authorize platform e start latency id org req shadow w).1 ≡ w1)
        × (d.verdict ≡ to_contract_verdict (combine (local_tally platform start req pol).results))
        × (d.shadow ≡ shadow)
        × (is_empty d.obligations ≡ true)
  authorize_advisory shadow w {w1} {pol} {d} p h o =
      let same = authorize_lem shadow w p in
      let d_carries = decide-Carries shadow pol w1 (sym (ap (λ x. x.0) same) ∙ o) in
      let untouched =
        budget_step_untouched e org id req shadow pol (local_tally platform start req pol) w1 h in
      (
        ap (λ x. x.1) same ∙ decide_state shadow pol w1 ∙ ap (λ x. x.1) untouched,
        d_carries.0 ∙ ap (λ x. to_contract_verdict (combine x.0.results)) untouched,
        d_carries.1,
        d_carries.5 ∙ ap (λ x. not (is_some x.0.held)) untouched,
      )

  -- Where the provider fails, with an error other than the missing bundle or with no rules in the
  -- static policy, there is no decision: the provider's error is the answer and its state is kept.
  pub authorize_no_policy :
      (shadow : Bool) (w : W) {w1 : W} {x : Error} {active : Str → W → Result Policy × W}
      → e.provider ≡ some active
      → active org w ≡ (err x, w1)
      → (x ≢ no_active_bundle) ⊎ (e.policy.predicates ≡ [])
      → authorize platform e start latency id org req shadow w ≡ (err x, w1)
  unfolding authorize resolve_policy
  authorize_no_policy shadow w h k l = ground arith
