-- ===== src/Engine/Budgeted.antt =====
-- The budget part of a decision: when the engine reserves, and what the outcome of the
-- reservation makes of the verdict and of the obligations.
use borges_labs.Base.{
  ℕ, ◌≡◌, refl, ◌≢◌, ◌⊎◌, inl, inr, Bool, true, false, not, List, [], ◌∷◌, ◌++◌, arith, Str, some,
  any_of, any_of-append, is_empty, Bool-cases, is_some,
}
use borges_labs.Clock.{Time, Platform}
use borges_labs.Contracts.{AuthorizeRequest, Decision}
use borges_labs.Verdict.{
  Verdict, approve, deny, review, PredicateResult, combine, effective_outcome,
}
use borges_labs.Verdict.Algebra.{denies, flags, combine-precedence}
use borges_labs.Policies.{
  BudgetDecl, Policy, applicable_budget, BudgetOutcome, budget_within_limit, budget_exceeded,
  budget_unavailable, BudgetResult, ok,
}
use borges_labs.Explain.{to_contract_verdict, assemble_explanation}
use borges_labs.Engine.{Engine, budget_step, is_approve, finish}
use borges_labs.Budgeting.{Tally, budget_predicate_result, fold_reservation, held_if}
use borges_labs.Evaluation.{assemble_decision}

-- The verdict that a reservation leads to, after local rules that approve.
abbrev pub reserved_verdict : BudgetOutcome → Verdict
reserved_verdict budget_within_limit = approve
reserved_verdict budget_exceeded = deny
reserved_verdict budget_unavailable = review

-- Folding the budget's result into local results that approve gives its own verdict.
pub combine-budget :
    (rs : List PredicateResult) (b : BudgetDecl) (o : BudgetOutcome)
    → combine rs ≡ approve
    → combine (rs ++ budget_predicate_result b o ∷ []) ≡ reserved_verdict o
unfolding budget_predicate_result any_of effective_outcome
combine-budget [] b o h = cc (combine-precedence [], h)
combine-budget (r ∷ rs) b o h = ground (
  arith,
  combine-precedence (r ∷ rs),
  combine-precedence (r ∷ rs ++ budget_predicate_result b o ∷ []),
  any_of-append denies (r ∷ rs) (budget_predicate_result b o ∷ []),
  any_of-append flags (r ∷ rs) (budget_predicate_result b o ∷ []),
)

module _ {W : Type 0} (e : Engine W) (org id : Str) (req : AuthorizeRequest) where
  -- A shadow request, and one that the local rules do not approve, leaves the budget counters
  -- and the ledger as they are, and its results, rows and held budget too.
  pub budget_step_untouched :
      (shadow : Bool) (pol : Policy) (t : Tally) (w : W)
      → (shadow ≡ true) ⊎ (combine t.results ≢ approve)
      → budget_step e org id req shadow pol t w ≡ (t, w)
  unfolding budget_step
  budget_step_untouched shadow pol t w h = elim (Bool-cases (is_approve (combine t.results))) [
    | inl a ↦ ground arith
    | inr a ↦ ground arith
  ]

  budget_step_lem :
      (pol : Policy) (t : Tally) (w : W) {b : BudgetDecl}
      {reserve : Str → Str → AuthorizeRequest → BudgetDecl → W → BudgetResult × W}
      → e.reserver ≡ some reserve
      → applicable_budget pol req.agent_id ≡ some b
      → combine t.results ≡ approve
      → budget_step e org id req false pol t w
        ≡ (fold_reservation req b t (reserve org id req b w).0, (reserve org id req b w).1)
  unfolding budget_step
  budget_step_lem pol t w r a h = ground arith

  -- An enforcing request that the local rules approve, under a budget that governs the agent,
  -- is decided by the reservation: within the limit it is approved and held, above the limit it
  -- is denied, without a counter it goes to review, and neither of these is held; the state is
  -- the one that the reserver leaves.
  pub budget_step_reserves :
      (pol : Policy) (t : Tally) (w : W) {b : BudgetDecl}
      {reserve : Str → Str → AuthorizeRequest → BudgetDecl → W → BudgetResult × W}
      → e.reserver ≡ some reserve
      → applicable_budget pol req.agent_id ≡ some b
      → combine t.results ≡ approve
      → let res = (reserve org id req b w).0 in
        let step = budget_step e org id req false pol t w in
        (combine step.0.results ≡ reserved_verdict res.outcome)
        × (step.0.held ≡ held_if res.outcome b)
        × (step.1 ≡ (reserve org id req b w).1)
  budget_step_reserves pol t w {b = b} {reserve = reserve} r a h =
      rw (budget_step_lem pol t w r a h)
        (unfold fold_reservation in (combine-budget t.results b _ h, refl, refl))

-- What a decision takes over from the tally.
abbrev pub Carries : Bool → Str → Policy → Tally → Decision → Type 0
Carries shadow id pol t d =
    (d.verdict ≡ to_contract_verdict (combine t.results))
    × (d.shadow ≡ shadow)
    × (d.decision_id ≡ id)
    × (d.policy_version_hash ≡ pol.version)
    × (d.explanation.matched_rules ≡ t.matched)
    × (is_empty d.obligations ≡ not (is_some t.held))

pub finish-Carries :
    {W : Type 0} (platform : Platform) (e : Engine W) (now : Time) (latency : ℕ) (id : Str)
    (req : AuthorizeRequest) (shadow : Bool) (pol : Policy) (evaluated_at : Str) (t : Tally)
    {d : Decision}
    → finish platform e now latency id req shadow pol evaluated_at t ≡ ok d
    → Carries shadow id pol t d
unfolding finish assemble_decision assemble_explanation
finish-Carries platform e now latency id req shadow pol evaluated_at t h = ground arith
