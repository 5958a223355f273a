-- ===== src/Policies.antt =====
-- Policies and budgets as the engine sees them (services/authorize-svc/internal/engine/engine.go,
-- lines 14 to 129): the evaluable policy, budget declarations, and the result of a reservation.
use borges_labs.Base.{Option, none, some, List, [], ◌∷◌, Str, if◌then◌else◌}
use borges_labs.Predicate.{Predicate, applies_to}

pub record BudgetDecl : Type 0 where
  pub id : Str
  pub agents : List Str
  pub window : Str
  pub limit : Str
  pub currency : Str

pub record Policy : Type 0 where
  pub version : Str
  pub predicates : List Predicate
  pub budgets : List BudgetDecl

unfoldable pub first_budget : List BudgetDecl → Str → Option BudgetDecl
first_budget [] agent = none
first_budget (b ∷ bs) agent = if applies_to b.agents agent then some b else first_budget bs agent

-- `Policy.applicableBudget`
unfoldable pub applicable_budget : Policy → Str → Option BudgetDecl
unfolding first_budget
applicable_budget p agent = first_budget p.budgets agent

pub data BudgetOutcome : Type 0 where
  budget_within_limit budget_exceeded budget_unavailable : BudgetOutcome

pub record BudgetResult : Type 0 where
  pub outcome : BudgetOutcome
  pub spend_to_date : Str
  pub limit : Str
  pub window_key : Str

-- What `Provider.Active` and `Engine.Authorize` can fail with.
pub data Error : Type 0 where
  no_active_bundle load_failed sign_failed : Error

pub data Result (A : Type 0) : Type 0 where
  ok : A → Result A
  err : Error → Result A
