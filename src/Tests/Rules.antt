-- ===== src/Tests/Rules.antt =====
-- Verdicts over concrete results, and the rules on a concrete request.
use borges_labs.Base.{
  ◌≡◌, ◌≢◌, ◌↔◌, ◌⊎◌, refl, true, false, [], ◌∷◌, str, any_of, All, Has, str_eq, scale,
}
use borges_labs.Verdict.{
  Outcome, satisfied, denied, unavailable, FailMode, fail_open, fail_closed_review, unspecified,
  PredicateResult, approve, combine,
}
use borges_labs.Verdict.Algebra.{
  denies, flags, precedence, Grants, combine-precedence, combine-approve_iff,
}
use borges_labs.Predicate.{evaluate_limit, applies_to}
use borges_labs.Predicate.Money.{rat_gt, parse_money, read_decimal, read_digits, cut_dot}
use borges_labs.Predicate.Rules.{applies_to_iff}
use borges_labs.Tests.Data.{platform, input, acme}

abbrev result : Outcome → FailMode → PredicateResult
result o m = record { rule_id = str "r"; enriched = false; outcome = o; fail_mode = m }

abbrev passed : PredicateResult
passed = result satisfied unspecified

abbrev timed_out : PredicateResult
timed_out = result unavailable fail_closed_review

abbrev refused : PredicateResult
refused = result denied unspecified

combine-precedence_example :
    combine (passed ∷ timed_out ∷ refused ∷ [])
    ≡ precedence false
        (any_of denies (passed ∷ timed_out ∷ refused ∷ []))
        (any_of flags (passed ∷ timed_out ∷ refused ∷ []))
combine-precedence_example = combine-precedence (passed ∷ timed_out ∷ refused ∷ [])

combine-approve_iff_example : (combine (passed ∷ result unavailable fail_open ∷ []) ≡ approve) ↔ (
    ((passed ∷ result unavailable fail_open ∷ []) ≢ [])
    × All Grants (passed ∷ result unavailable fail_open ∷ []))
combine-approve_iff_example = combine-approve_iff (passed ∷ result unavailable fail_open ∷ [])

applies_to_iff_example :
    (applies_to (acme ∷ []) acme ≡ true) ↔ (((acme ∷ []) ≡ []) ⊎ Has acme (acme ∷ []))
applies_to_iff_example = applies_to_iff (acme ∷ []) acme

over_limit : (evaluate_limit platform (str "30.00") (str "USD") input).outcome ≡ denied
unfolding evaluate_limit str_eq parse_money read_decimal read_digits cut_dot rat_gt scale
over_limit = refl
