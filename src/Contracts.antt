-- ===== src/Contracts.antt =====
-- The contract types (contracts/gen/go/contractsv1/types.go). Texts that the code only prints
-- (`fmt.Sprintf`) are kept as their format and arguments, and maps of evidence as lists of
-- entries; the values in them are not rendered. The request's `context` and
-- `counter_snapshot`, which no code of the service reads, are left out.
use Prim.Native.String.{String}
use borges_labs.Base.{ℕ, Str, Bool, List, [], ◌∷◌}

pub data Verdict : Type 0 where
  verdict_approve verdict_deny verdict_review : Verdict

-- `PredicateResult` of the contract.
pub data RuleResult : Type 0 where
  result_satisfied result_denied result_review result_unavailable : RuleResult

pub data PredicateType : Type 0 where
  per_transaction_limit vendor_allowlist vendor_blocklist agent_permission time_window :
      PredicateType
  jurisdiction_currency rolling_budget sanctions_screen vendor_risk : PredicateType

-- `other` is any text that is none of the constants.
pub data TargetType : Type 0 where
  vendor account address internal unknown : TargetType
  other : Str → TargetType

pub record Target : Type 0 where
  pub type : TargetType
  pub id : Str

pub record AuthorizeRequest : Type 0 where
  pub agent_id : Str
  pub action : Str
  pub amount : Str
  pub currency : Str
  pub target : Target
  pub jurisdiction : Str
  pub idempotency_key : Str
  pub evaluated_at : Str

-- A value in a message or in a map of evidence: `clock` is a minute of the day that is printed
-- as 15:04, `day_name` a weekday that is printed by its name, `duration` a number of
-- nanoseconds. A message is `fmt.Sprintf(format, args...)`; its arguments are a list of its own,
-- since a message may stand in another.
mutual
  pub data Value : Type 0 where
    text : Str → Value
    texts : List Str → Value
    number : ℕ → Value
    clock : ℕ → Value
    day_name : ℕ → Value
    duration : ℕ → Value
    target_type : TargetType → Value
    message : Message → Value

  pub data Args : Type 0 where
    end : Args
    arg : Value → Args → Args

  pub data Message : Type 0 where
    formatted : String → Args → Message

abbrev pub to_args : List Value → Args
to_args [] = end
to_args (v ∷ vs) = arg v (to_args vs)

abbrev pub plain : String → Message
plain s = formatted s end

abbrev pub sprintf : String → List Value → Message
sprintf s vs = formatted s (to_args vs)

-- A `map[string]interface{}` that is built once, by its entries.
abbrev pub Evidence : Type 0
Evidence = List (String × Value)

pub record MatchedRule : Type 0 where
  pub rule_id : Str
  pub type : PredicateType
  pub result : RuleResult
  pub detail : Message
  pub evidence : Evidence

pub record Explanation : Type 0 where
  pub summary : Message
  pub matched_rules : List MatchedRule

pub record Obligation : Type 0 where
  pub type : String
  pub detail : Message
  pub params : Evidence

pub record Signature : Type 0 where
  pub algorithm : String
  pub key_id : Str
  pub value : Str
  pub canonicalization : String

-- The record-only fields, `record_hash` and `signature_verified`, belong to the audit log.
pub record Decision : Type 0 where
  pub decision_id : Str
  pub verdict : Verdict
  pub policy_version_hash : Str
  pub explanation : Explanation
  pub obligations : List Obligation
  pub latency_ms : ℕ
  pub evaluated_at : Str
  pub signature : Signature
  pub shadow : Bool
