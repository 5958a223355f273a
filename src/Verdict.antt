-- ===== src/Verdict.antt =====
-- The combination algebra (services/authorize-svc/internal/engine/verdict.go).
pub mod Algebra
use borges_labs.Base.{Str, Bool, true, false, List, [], ◌∷◌, if◌then◌else◌}

-- `engine.Verdict`
pub data Verdict : Type 0 where
  approve deny review : Verdict

pub data Outcome : Type 0 where
  satisfied denied flagged unavailable : Outcome

-- `unspecified` is the empty mode and any other text that is none of the constants.
pub data FailMode : Type 0 where
  fail_closed_review fail_closed_deny fail_open unspecified : FailMode

pub record PredicateResult : Type 0 where
  pub rule_id : Str
  pub enriched : Bool
  pub outcome : Outcome
  pub fail_mode : FailMode

-- The inner switch of `effectiveOutcome`, on the fail mode.
abbrev pub resolve : FailMode → Outcome
resolve fail_closed_deny = denied
resolve fail_open = satisfied
resolve fail_closed_review = flagged
resolve unspecified = flagged

abbrev pub effective : Outcome → FailMode → Outcome
effective unavailable m = resolve m
effective o m = o

unfoldable pub effective_outcome : PredicateResult → Outcome
effective_outcome r = effective r.outcome r.fail_mode

-- The loop of `Combine`; the flag is the variable `sawFlag`. An outcome that is still
-- unavailable would fall through the switch; `effectiveOutcome` returns none such.
combine_loop : Bool → List PredicateResult → Verdict
combine_loop saw_flag [] = if saw_flag then review else approve
combine_loop saw_flag (r ∷ rs) = elim (effective_outcome r) [
  | denied ↦ deny
  | flagged ↦ combine_loop true rs
  | satisfied ↦ combine_loop saw_flag rs
  | unavailable ↦ combine_loop saw_flag rs
]

unfoldable pub combine : List PredicateResult → Verdict
unfolding combine_loop effective_outcome
combine [] = deny
combine (r ∷ rs) = combine_loop false (r ∷ rs)
