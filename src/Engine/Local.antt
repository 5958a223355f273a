-- ===== src/Engine/Local.antt =====
-- The local part of a decision: `evalLocal` and `Evaluate`.
use borges_labs.Base.{
  ◌≡◌, refl, ◌≢◌, ◌↔◌, inl, inr, true, List, [], ◌∷◌, arith, Str, map, All, Has, here, there,
  Bool-cases,
}
use borges_labs.Clock.{Platform}
use borges_labs.Contracts.{AuthorizeRequest, RuleResult, verdict_approve}
use borges_labs.Verdict.{approve, satisfied, combine}
use borges_labs.Verdict.Algebra.{Grants, combine-approve_iff}
use borges_labs.Predicate.{Predicate, Input, base, applies_to, evaluate}
use borges_labs.Policies.{Policy}
use borges_labs.Explain.{to_contract_result, to_contract_verdict}
use borges_labs.Evaluation.{
  eval_local, local_result, local_matched, build_input, evaluate_policy, assemble_decision,
}

module _ (platform : Platform) (i : Input) where
  -- Each row of the explanation stands for the result at its place: same rule, same outcome.
  pub eval_local-parallel :
      (ps : List Predicate)
      → map (λ r. (r.rule_id, to_contract_result r.outcome)) (eval_local platform ps i).0
        ≡ map {B = Str × RuleResult} (λ m. (m.rule_id, m.result)) (eval_local platform ps i).1
  unfolding eval_local local_result local_matched
  eval_local-parallel [] = refl
  eval_local-parallel (p ∷ ps) = ground (arith, eval_local-parallel ps)

  -- A rule of the policy that applies to the agent.
  abbrev pub Applicable : List Predicate → Predicate → Type 0
  Applicable ps p = Has p ps × (applies_to (base p).agents i.agent_id ≡ true)

  granted :
      (p : Predicate)
      → Grants (local_result platform p i)
      → (evaluate platform p i).outcome ≡ satisfied
  unfolding local_result
  granted p h = ground arith

  All-satisfied :
      (ps : List Predicate)
      → All Grants (eval_local platform ps i).0
      → (p : Predicate) → Applicable ps p
      → (evaluate platform p i).outcome ≡ satisfied
  unfolding eval_local
  All-satisfied [] h q (m, a) = elim m [ ]
  All-satisfied (p ∷ ps) h q (here, a) = granted p (ground arith)
  All-satisfied (p ∷ ps) h q (there m, a) =
      elim (Bool-cases (applies_to (base p).agents i.agent_id)) [
        | inl on ↦ All-satisfied ps (ground arith) q (m, a)
        | inr off ↦ All-satisfied ps (rw off at h) q (m, a)
      ]

  All-granted :
      (ps : List Predicate)
      → ((p : Predicate) → Applicable ps p → (evaluate platform p i).outcome ≡ satisfied)
      → All Grants (eval_local platform ps i).0
  unfolding eval_local local_result
  All-granted [] h = tt
  All-granted (p ∷ ps) h = elim (Bool-cases (applies_to (base p).agents i.agent_id)) [
    | inl on ↦ rw on (inl (h p (here, on)), All-granted ps (λ q m. h q (there m.0, m.1)))
    | inr off ↦ rw off (All-granted ps (λ q m. h q (there m.0, m.1)))
  ]

  results_nonempty :
      (ps : List Predicate) (p : Predicate) → Applicable ps p → (eval_local platform ps i).0 ≢ []
  unfolding eval_local
  results_nonempty [] p (m, a) = elim m [ ]
  results_nonempty (p ∷ ps) q (here, a) = λ e. ground arith
  results_nonempty (p ∷ ps) q (there m, a) = λ e. ground (arith, results_nonempty ps q (m, a))

  some_applies :
      (ps : List Predicate) → (eval_local platform ps i).0 ≢ [] → (p : Predicate) × Applicable ps p
  unfolding eval_local
  some_applies [] h = absurd (h refl)
  some_applies (p ∷ ps) h = elim (Bool-cases (applies_to (base p).agents i.agent_id)) [
    | inl a ↦ (p, (here, a))
    | inr no_match ↦ let (q, (m, a)) = some_applies ps (λ e. h (ground arith)) in (q, (there m, a))
  ]

  -- Over the local rules, the verdict is APPROVE exactly when some rule applies to the agent and
  -- every rule that applies is satisfied.
  pub local_approve_iff :
      (ps : List Predicate)
      → (combine (eval_local platform ps i).0 ≡ approve) ↔ (
          ((p : Predicate) × Applicable ps p)
          × ((p : Predicate) → Applicable ps p → (evaluate platform p i).outcome ≡ satisfied))
  local_approve_iff ps = (
    λ h.
        let (some_result, All-grant) = (combine-approve_iff _).0 h in
        (some_applies ps some_result, All-satisfied ps All-grant),
    λ h. (combine-approve_iff _).1 (results_nonempty ps h.0.0 h.0.1, All-granted ps h.1),
  )

to_contract-approve : (v : _) → to_contract_verdict v ≡ verdict_approve → v ≡ approve
unfolding to_contract_verdict
to_contract-approve v h = ground arith

-- A dry run (`Evaluate`) approves exactly when some rule applies to the agent and every rule
-- that applies is satisfied.
pub evaluate_policy_iff :
    (platform : Platform) (pol : Policy) (req : AuthorizeRequest) (evaluated_at id : Str)
    → ((evaluate_policy platform pol req evaluated_at id).verdict ≡ verdict_approve) ↔ (
        ((p : Predicate) × Applicable platform
            (build_input platform req evaluated_at)
            pol.predicates
            p)
        × ((p : Predicate)
            → Applicable platform (build_input platform req evaluated_at) pol.predicates p
            → (evaluate platform p (build_input platform req evaluated_at)).outcome ≡ satisfied))
unfolding evaluate_policy assemble_decision
evaluate_policy_iff platform pol req evaluated_at id = (
  λ h.
      (local_approve_iff platform (build_input platform req evaluated_at) pol.predicates).0
        (to_contract-approve _ h),
  λ h.
      rw ((local_approve_iff platform (build_input platform req evaluated_at) pol.predicates).1 h)
        (unfold to_contract_verdict in refl),
)
