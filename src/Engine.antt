-- ===== src/Engine.antt =====
-- The decision engine (services/authorize-svc/internal/engine/engine.go). What the engine calls
-- through an interface, the bundle provider and the budget reserver, works on a state `W` of
-- their own and returns the next one. A fresh id, the clock and the measured latency are
-- arguments; the signer is a function, since Ed25519 and the canonical form are not modelled.
pub mod Local
pub mod Budgeted
pub mod Authorized
use borges_labs.Base.{
  ℕ, ◌/◌, Bool, true, false, ◌&&◌, not, Option, none, some, List, [], ◌∷◌, Str, str, is_empty,
  if◌then◌else◌,
}
use borges_labs.Clock.{Time, Platform}
use borges_labs.Contracts.{AuthorizeRequest, Obligation, Signature, Decision}
use borges_labs.Verdict.{Verdict, approve, combine}
use borges_labs.Policies.{
  BudgetDecl, Policy, applicable_budget, BudgetResult, no_active_bundle, load_failed, sign_failed,
  Result, ok, err,
}
use borges_labs.Budgeting.{hold_ttl_of, capture_within_obligation, Tally, fold_reservation}
use borges_labs.Evaluation.{build_input, eval_local, assemble_decision}

-- `Engine`, with its two interfaces: `BundleProvider.Active` and `BudgetReserver.Reserve`.
pub record Engine (W : Type 0) : Type 0 where
  pub policy : Policy
  pub signing_key_id : Str
  pub signer : Option (Decision → Option Signature)
  pub provider : Option (Str → W → Result Policy × W)
  pub hold_ttl : ℕ
  pub reserver : Option (Str → Str → AuthorizeRequest → BudgetDecl → W → BudgetResult × W)

abbrev pub is_approve : Verdict → Bool
is_approve approve = true
is_approve _ = false

abbrev pub stub_signature_value : Str
stub_signature_value = str "c3R1Yi1kZWNpc2lvbi1zaWduYXR1cmUtbm90LXlldC1yZWFs"

module _ {W : Type 0} where
  -- The policy that a decision is made under, or the error that ends the request.
  fall_back : Engine W → Result Policy → Result Policy
  fall_back e (ok pol) = ok pol
  fall_back e (err no_active_bundle) =
      if is_empty e.policy.predicates then err no_active_bundle else ok e.policy
  fall_back e (err load_failed) = err load_failed
  fall_back e (err sign_failed) = err sign_failed

  unfoldable pub resolve_policy : Engine W → Str → W → Result Policy × W
  unfolding fall_back
  resolve_policy e org w = elim e.provider [
    | none ↦ (ok e.policy, w)
    | some active ↦ (fall_back e (active org w).0, (active org w).1)
  ]

  -- The call of `Reserve` for an applicable budget, or, with no reserver, the bare obligation.
  reserve_budget : Engine W → Str → Str → AuthorizeRequest → BudgetDecl → Tally → W → Tally × W
  reserve_budget e org id req b t w = elim e.reserver [
    | none ↦ (record t { held = some b }, w)
    | some reserve ↦
        (fold_reservation req b t (reserve org id req b w).0, (reserve org id req b w).1)
  ]

  -- `if !shadow && Combine(results) == Approve { if b, ok := pol.applicableBudget(...); ok { ... } }`
  unfoldable pub budget_step :
      Engine W → Str → Str → AuthorizeRequest → Bool → Policy → Tally → W → Tally × W
  unfolding reserve_budget
  budget_step e org id req shadow pol t w =
      if not shadow && is_approve (combine t.results)
      then elim (applicable_budget pol req.agent_id) [
        | none ↦ (t, w)
        | some b ↦ reserve_budget e org id req b t w
      ]
      else (t, w)

  obligations_of :
      Platform
      → Engine W
      → Time
      → AuthorizeRequest
      → Str
      → Str
      → Option BudgetDecl
      → List Obligation
  obligations_of platform e now req evaluated_at id none = []
  obligations_of platform e now req evaluated_at id (some b) =
      capture_within_obligation platform (hold_ttl_of e.hold_ttl) now b req evaluated_at id ∷ []

  -- The last part of `Authorize`: the decision with its obligations and its signature.
  sign : Engine W → ℕ → Decision → Result Decision
  sign e latency dec =
      let unsigned = record dec {
        signature = record {
          algorithm = "Ed25519";
          key_id = e.signing_key_id;
          value = stub_signature_value;
          canonicalization = "ti-decision-canon/1";
        };
      } in
      elim e.signer [
        | none ↦ ok (record unsigned { latency_ms = latency })
        | some signer ↦ elim (signer unsigned) [
          | none ↦ err sign_failed
          | some s ↦ ok (record unsigned { signature = s; latency_ms = latency })
        ]
      ]

  unfoldable pub finish :
      Platform
      → Engine W
      → Time
      → ℕ
      → Str
      → AuthorizeRequest
      → Bool
      → Policy
      → Str
      → Tally
      → Result Decision
  unfolding obligations_of sign
  finish platform e now latency id req shadow pol evaluated_at t =
      let dec = assemble_decision id (combine t.results) pol.version t.matched evaluated_at in
      sign e latency (record dec {
        shadow = shadow;
        obligations = obligations_of platform e now req evaluated_at id t.held;
      })

  -- `Authorize` after the policy is resolved: local rules, budget, verdict, signature.
  unfoldable pub decide :
      Platform
      → Engine W
      → Time
      → ℕ
      → Str
      → Str
      → AuthorizeRequest
      → Bool
      → Policy
      → W
      → Result Decision × W
  decide platform e start latency id org req shadow pol w =
      let evaluated_at : Str =
        if is_empty req.evaluated_at then platform.format_time start else req.evaluated_at in
      let local = eval_local platform pol.predicates (build_input platform req evaluated_at) in
      let step =
        budget_step e org id req shadow pol
          (record { results = local.0; matched = local.1; held = none }) w in
      (finish platform e start latency id req shadow pol evaluated_at step.0, step.1)

  -- `Engine.Authorize`
  unfoldable pub authorize :
      Platform → Engine W → Time → ℕ → Str → Str → AuthorizeRequest → Bool → W → Result Decision × W
  authorize platform e start latency id org req shadow w =
      let r = resolve_policy e org w in
      elim r.0 [
        | ok pol ↦ decide platform e start latency id org req shadow pol r.1
        | err x ↦ (err x, r.1)
      ]
