-- ===== src/Audit.antt =====
-- The audit log (services/authorize-svc/internal/audit/audit.go, memory.go): the record of a
-- decision, its hash and chain link, and the filters of a listing. JSON, its canonical form and SHA-256 in hex are one
-- parameter, `digest`; `none` is its error. `Seq` counts the records of a process.
pub mod Store
pub mod Crypto
pub mod Chain
pub mod Listing
pub mod Refined
pub mod Queue
use borges_labs.Base.{
  ℕ, ℤ, pos, negsuc, Bool, true, false, not, ◌&&◌, ◌||◌, Option, none, some, List, [], ◌++◌, Str,
  str, str_eq, is_empty, ltb, ◌==◌, if◌then◌else◌,
}
use borges_labs.Clock.{Time, is_zero, before, Platform}
use borges_labs.Contracts.{
  Verdict, verdict_approve, verdict_deny, verdict_review, TargetType, vendor, account, address,
  internal, unknown, other, AuthorizeRequest, Explanation, Obligation, Signature, Decision,
}

abbrev pub genesis_prev : Str
genesis_prev = str "rh_genesis/1"

pub record Record : Type 0 where
  pub seq : ℕ
  pub decision_id : Str
  pub org_id : Str
  pub api_key_id : Str
  pub agent_id : Str
  pub action : Str
  pub amount : Str
  pub currency : Str
  pub target_type : Str
  pub target_id : Str
  pub jurisdiction : Str
  pub verdict : Verdict
  pub policy_version_hash : Str
  pub explanation : Explanation
  pub obligations : List Obligation
  pub signature : Signature
  pub latency_ms : ℕ
  pub evaluated_at : Str
  pub shadow : Bool
  pub prev_hash : Str
  pub record_hash : Str
  pub retain_until : Time
  pub created_at : Time

-- `string(t)`
abbrev pub target_text : TargetType → Str
target_text vendor = str "vendor"
target_text account = str "account"
target_text address = str "address"
target_text internal = str "internal"
target_text unknown = str "unknown"
target_text (other s) = s

-- `RecordFromDecision`
unfoldable pub record_from_decision : Str → Str → AuthorizeRequest → Decision → Record
record_from_decision org_id api_key_id req dec = record {
  seq = 0;
  decision_id = dec.decision_id;
  org_id = org_id;
  api_key_id = api_key_id;
  agent_id = req.agent_id;
  action = req.action;
  amount = req.amount;
  currency = req.currency;
  target_type = target_text req.target.type;
  target_id = req.target.id;
  jurisdiction = req.jurisdiction;
  verdict = dec.verdict;
  policy_version_hash = dec.policy_version_hash;
  explanation = dec.explanation;
  obligations = dec.obligations;
  signature = dec.signature;
  latency_ms = dec.latency_ms;
  evaluated_at = dec.evaluated_at;
  shadow = dec.shadow;
  prev_hash = [];
  record_hash = [];
  retain_until = 0;
  created_at = 0;
}

-- A decision with the fields that only a stored one has.
pub record StoredDecision : Type 0 where
  pub decision : Decision
  pub record_hash : Str
  pub signature_verified : Bool

-- `Record.Decision`
unfoldable pub to_decision : Record → Bool → StoredDecision
to_decision r signature_verified = record {
  decision = record {
    decision_id = r.decision_id;
    verdict = r.verdict;
    policy_version_hash = r.policy_version_hash;
    explanation = r.explanation;
    obligations = r.obligations;
    latency_ms = r.latency_ms;
    evaluated_at = r.evaluated_at;
    signature = r.signature;
    shadow = r.shadow;
  };
  record_hash = r.record_hash;
  signature_verified = signature_verified;
}

pub record HashView : Type 0 where
  pub prev_hash : Str
  pub decision_id : Str
  pub org_id : Str
  pub api_key_id : Str
  pub agent_id : Str
  pub action : Str
  pub amount : Str
  pub currency : Str
  pub target_type : Str
  pub target_id : Str
  pub jurisdiction : Str
  pub verdict : Verdict
  pub policy_version_hash : Str
  pub explanation : Explanation
  pub obligations : List Obligation
  pub signature : Signature
  pub latency_ms : ℕ
  pub evaluated_at : Str
  pub shadow : Bool

-- The view that `ComputeRecordHash` builds.
unfoldable pub hash_view : Str → Record → HashView
hash_view prev r = record {
  prev_hash = prev;
  decision_id = r.decision_id;
  org_id = r.org_id;
  api_key_id = r.api_key_id;
  agent_id = r.agent_id;
  action = r.action;
  amount = r.amount;
  currency = r.currency;
  target_type = r.target_type;
  target_id = r.target_id;
  jurisdiction = r.jurisdiction;
  verdict = r.verdict;
  policy_version_hash = r.policy_version_hash;
  explanation = r.explanation;
  obligations = r.obligations;
  signature = r.signature;
  latency_ms = r.latency_ms;
  evaluated_at = r.evaluated_at;
  shadow = r.shadow;
}

module _ (digest : HashView → Option Str) where
  -- `ComputeRecordHash`
  unfoldable pub compute_record_hash : Str → Record → Option Str
  compute_record_hash prev r = elim (digest (hash_view prev r)) [
    | none ↦ none
    | some sum ↦ some (str "rh_" ++ sum)
  ]

  -- `VerifyChainLink`
  unfoldable pub verify_chain_link : Record → Option Bool
  verify_chain_link r = elim (compute_record_hash r.prev_hash r) [
    | none ↦ none
    | some want ↦ some (str_eq want r.record_hash)
  ]

-- `Encryptor`, over a source of randomness; `none` is an error.
pub record Encryptor (W : Type 0) : Type 0 where
  pub encrypt : Str → W → Option Str × W
  pub decrypt : Str → Option Str

pub record Filter : Type 0 where
  pub agent_id : Str
  pub verdict : Option Verdict
  pub from : Time
  pub to : Time
  pub limit : ℤ
  pub cursor : ℤ

pub record Page : Type 0 where
  pub records : List Record
  pub next_cursor : ℕ

-- `clampLimit`
unfoldable pub clamp_limit : ℤ → ℕ
clamp_limit (negsuc n) = 50
clamp_limit (pos n) = if n == 0 then 50 else if ltb 200 n then 200 else n

abbrev verdict_eq : Verdict → Verdict → Bool
verdict_eq verdict_approve verdict_approve = true
verdict_eq verdict_deny verdict_deny = true
verdict_eq verdict_review verdict_review = true
verdict_eq _ _ = false

abbrev in_range : Filter → Option Time → Bool
in_range f none = false
in_range f (some ts) =
    not (not (is_zero f.from) && before ts f.from)
    && not (not (is_zero f.to) && not (before ts f.to))

abbrev has_verdict : Option Verdict → Verdict → Bool
has_verdict none v = true
has_verdict (some w) v = verdict_eq v w

-- `matches`
unfoldable pub matches : Platform → Record → Filter → Bool
matches platform r f =
    (is_empty f.agent_id || str_eq r.agent_id f.agent_id)
    && (has_verdict f.verdict r.verdict
        && (is_zero f.from && is_zero f.to || in_range f (platform.parse_time r.evaluated_at)))
