-- ===== src/Tests/Data.antt =====
-- The inputs of the tests: a platform, a request of 40.00 dollars to a vendor, a policy with a
-- limit, an allowlist and a daily budget of 50.00 dollars, and the engine over the in-memory
-- counter and ledger.
use borges_labs.Base.{◌+◌, none, some, [], ◌∷◌, Str, str, str_eq, ℤ, pos, Dict, if◌then◌else◌}
use borges_labs.Clock.{Time, Platform}
use borges_labs.Contracts.{vendor, AuthorizeRequest, Decision}
use borges_labs.Verdict.{deny}
use borges_labs.Predicate.{Predicate, per_transaction_limit, vendor_allowlist, Input}
use borges_labs.Policies.{BudgetDecl, Policy, Result, ok, err}
use borges_labs.Counter.{mem_counter}
use borges_labs.Hold.{Hold, held, Holds, mem_store}
use borges_labs.Reserver.{reserve}
use borges_labs.Engine.{Engine}
use borges_labs.Evaluation.{assemble_decision}

-- 1 March 2026, 12:00 UTC.
abbrev pub noon : Time
noon = 63907963200000000000

abbrev pub noon_text : Str
noon_text = str "2026-03-01T12:00:00Z"

abbrev pub platform : Platform
platform = record {
  parse_time = λ s. if str_eq s noon_text then some noon else none;
  format_time = λ t. noon_text;
  format_day = λ t. str "2026-03-01";
  format_month = λ t. str "2026-03";
  parse_other_rat = λ s. none;
}

abbrev pub org : Str
org = str "org1"

abbrev pub acme : Str
acme = str "acme"

abbrev pub request : AuthorizeRequest
request = record {
  agent_id = str "agent7";
  action = str "pay";
  amount = str "40.00";
  currency = str "USD";
  target = record { type = vendor; id = acme };
  jurisdiction = [];
  idempotency_key = str "k1";
  evaluated_at = [];
}

abbrev pub limit_rule : Predicate
limit_rule =
    per_transaction_limit (record { id = str "limit"; agents = [] }) (str "100.00") (str "USD")

abbrev pub vendor_rule : Predicate
vendor_rule = vendor_allowlist (record { id = str "vendors"; agents = [] }) (acme ∷ [])

-- Nobody is on this list.
abbrev pub closed_rule : Predicate
closed_rule = vendor_allowlist (record { id = str "closed"; agents = [] }) []

abbrev pub daily : BudgetDecl
daily = record {
  id = str "daily";
  agents = str "agent7" ∷ [];
  window = str "day";
  limit = str "50.00";
  currency = str "USD";
}

abbrev pub policy : Policy
policy = record {
  version = str "v1";
  predicates = limit_rule ∷ vendor_rule ∷ [];
  budgets = daily ∷ [];
}

abbrev pub closed_policy : Policy
closed_policy = record {
  version = str "v2";
  predicates = limit_rule ∷ closed_rule ∷ [];
  budgets = daily ∷ [];
}

abbrev pub World : Type 0
World = Dict ℤ × Holds

abbrev pub engine : Policy → Engine World
engine p = record {
  policy = p;
  signing_key_id = str "key1";
  signer = none;
  provider = none;
  hold_ttl = 0;
  reserver = some (λ o id req b w.
      reserve mem_counter (mem_store noon) platform 900000000000 noon o id req b w);
}

abbrev pub input : Input
input = record {
  agent_id = str "agent7";
  action = str "pay";
  amount_raw = str "40.00";
  amount = some (record { num = pos 4000; den = 100 });
  currency = str "USD";
  target = record { type = vendor; id = acme };
  jurisdiction = [];
  evaluated_at = noon;
}

-- The decision of a result, where there is one.
abbrev pub decision_of : Result Decision → Decision
decision_of (ok d) = d
decision_of (err e) = assemble_decision [] deny [] [] []

abbrev pub some_hold : Hold
some_hold = record {
  decision_id = str "d1";
  org_id = org;
  agent_id = str "agent7";
  budget_id = str "daily";
  window = str "day";
  window_key = str "2026-03-01";
  amount = str "40.00";
  currency = str "USD";
  state = held;
  created_at = noon;
  expires_at = noon + 900000000000;
  captured_at = 0;
  voided_at = 0;
}

abbrev pub ledger : Holds
ledger = (str "org1|d1", some_hold) ∷ []
