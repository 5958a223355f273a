-- ===== src/Gateway.antt =====
-- POST /v1/authorize, from its middleware to the audit queue (services/authorize-svc/internal/
-- server/middleware.go, authorize.go): authentication, rate limit, validation, the handler of
-- Serving, and the record that is handed to the audit writer. The decoder of the body is a
-- parameter, `none` its error. Left out are the limit on the size of a body, headers, logs, metrics
-- and the details of a problem. The endpoint is run for one request that no other one meets;
-- Serving.Interleaved mixes the steps of the handler.
pub mod Gated
pub mod Holds
pub mod Settled
use Prim.Native.String.{String}
use borges_labs.Base.{
  ℕ, Bool, true, false, not, ◌&&◌, ◌||◌, Option, none, some, List, [], ◌∷◌, ◌++◌, Str, is_empty,
  length, leb, ◌==◌, if◌then◌else◌,
}
use borges_labs.Clock.{Time, Platform}
use borges_labs.Contracts.{TargetType, other, AuthorizeRequest, Decision}
use borges_labs.Engine.{Engine}
use borges_labs.RateLimit.{LimitDecision, Tiers, resolve_tier, Limiter}
use borges_labs.Auth.{
  Request, Principal, KeyStore, NonceStore, Config, accepted, denied, authenticate,
}
use borges_labs.Auth as Auth
use borges_labs.Audit.{Record, record_from_decision}
use borges_labs.Serving.{IdempotencyStore, Answer, replayed, issued, unavailable, handle_authorize}
use borges_labs.Serving as Serving

is_digit : ℕ → Bool
is_digit c = leb 48 c && leb c 57

all_digits : Str → Bool
unfolding is_digit
all_digits [] = true
all_digits (c ∷ s) = is_digit c && all_digits s

-- `(\.[0-9]+)?$`
fraction_end : Str → Bool
unfolding all_digits
fraction_end [] = true
fraction_end (c ∷ s) = c == 46 && (not (is_empty s) && all_digits s)

-- `[0-9]*(\.[0-9]+)?$`
digits_end : Str → Bool
unfolding is_digit fraction_end
digits_end [] = true
digits_end (c ∷ s) = let rest = digits_end s in if is_digit c then rest else fraction_end (c ∷ s)

-- `(0|[1-9][0-9]*)(\.[0-9]+)?$`
unsigned_money : Str → Bool
unfolding is_digit fraction_end digits_end
unsigned_money [] = false
unsigned_money (c ∷ s) =
    if c == 48 then fraction_end s else if is_digit c then digits_end s else false

-- `reMoney`
unfoldable pub is_money : Str → Bool
unfolding unsigned_money
is_money [] = false
is_money (c ∷ s) = if c == 45 then unsigned_money s else unsigned_money (c ∷ s)

all_upper : Str → Bool
all_upper [] = true
all_upper (c ∷ s) = leb 65 c && leb c 90 && all_upper s

-- `reCurrency` and `reJurisdiction`, by the number of letters
unfoldable pub is_code : ℕ → Str → Bool
unfolding all_upper
is_code n s = length s == n && all_upper s

-- `validTargetTypes`
abbrev pub is_target_type : TargetType → Bool
is_target_type (other s) = false
is_target_type _ = true

abbrev pub within : ℕ → ℕ → Str → Bool
within low high s = leb low (length s) && leb (length s) high

-- `add`, where a check fails
abbrev pub add_unless : Bool → String → List String → List String
add_unless true pointer items = items
add_unless false pointer items = pointer ∷ items

-- `validateAuthorizeRequest`: the pointers of the fields that are not valid.
unfoldable pub validate_authorize_request : AuthorizeRequest → List String
validate_authorize_request req = add_unless (within 1 256 req.agent_id) "/agent_id" (
    add_unless (within 1 128 req.action) "/action" (
      add_unless (is_money req.amount) "/amount" (
        add_unless (is_code 3 req.currency) "/currency" (
          add_unless (is_target_type req.target.type) "/target/type" (
            add_unless (within 1 256 req.target.id) "/target/id" (
              add_unless (is_empty req.jurisdiction || is_code 2 req.jurisdiction) "/jurisdiction"
                (add_unless (within 8 128 req.idempotency_key) "/idempotency_key" [])))))))

-- A problem by its status and code, or a decision and whether it was replayed.
pub data Response : Type 0 where
  problem : ℕ → String → Response
  decided : Bool → Decision → Response

abbrev pub caller_of : Principal → Serving.Principal
caller_of p = record { org_id = p.org_id; shadow = p.shadow }

module _ {W S : Type 0} (platform : Platform) (e : Engine W) (idem : Option (IdempotencyStore S))
    (decode : Str → Option AuthorizeRequest) (tiers : Tiers) where
  -- `enqueueAudit`, where audit is wired and no retention is set.
  unfoldable pub enqueue_audit : Principal → AuthorizeRequest → Decision → List Record → List Record
  enqueue_audit p req dec queue = queue ++ record_from_decision p.org_id p.key_id req dec ∷ []

  unfoldable pub responded :
      Principal
      → AuthorizeRequest
      → Answer × (W × S)
      → List Record
      → Response × ((W × S) × List Record)
  unfolding enqueue_audit
  responded p req (replayed dec, ws) queue = (decided true dec, (ws, queue))
  responded p req (issued dec, ws) queue =
      (decided false dec, (ws, enqueue_audit p (record req { evaluated_at = [] }) dec queue))
  responded p req (unavailable, ws) queue = (problem 503 "internal_error", (ws, queue))

  -- `handleAuthorize` for an authenticated caller.
  unfoldable pub handle :
      Time
      → ℕ
      → Str
      → Principal
      → Option AuthorizeRequest
      → (W × S) × List Record
      → Response × ((W × S) × List Record)
  unfolding responded
  handle start latency id p none s = (problem 400 "validation_failed", s)
  handle start latency id p (some req) (ws, queue) =
      let answer = handle_authorize platform e idem start latency id (some (caller_of p)) req ws in
      if is_empty (validate_authorize_request req)
      then responded p req answer queue
      else (problem 400 "validation_failed", (ws, queue))

  -- `rateLimit` around the handler: where the limiter fails, the request passes.
  module _ {L : Type 0} (limiter : Limiter L) where
    admit :
        Option LimitDecision
        → Response × ((W × S) × List Record)
        → (W × S) × List Record
        → Response × ((W × S) × List Record)
    admit none served s = served
    admit (some d) served s = if d.allowed then served else (problem 429 "rate_limited", s)

    unfoldable pub rate_limit :
        Time
        → ℕ
        → Str
        → Principal
        → Option AuthorizeRequest
        → L × ((W × S) × List Record)
        → Response × (L × ((W × S) × List Record))
    unfolding admit
    rate_limit now latency id p body (l, s) =
        let d = limiter.allow p.key_id (resolve_tier tiers p.tier) l in
        let r = admit d.0 (handle now latency id p body s) s in (r.0, (d.1, r.1))

    -- The state behind the endpoint: keys and nonces, the limiter's, what the handler works on.
    module _ {K N : Type 0} (auth : Auth.Platform) (keys : KeyStore K) (nonces : NonceStore N)
        (cfg : Config) where
      -- `authenticate` around all of it.
      unfoldable pub authorize_endpoint :
          Time
          → ℕ
          → Str
          → Request
          → (K × N) × (L × ((W × S) × List Record))
          → Response × ((K × N) × (L × ((W × S) × List Record)))
      authorize_endpoint now latency id req (kn, s) =
          let a = authenticate auth keys nonces cfg now req kn in
          elim a.0 [
            | denied err ↦ (problem err.status err.code, (a.1, s))
            | accepted p ↦
                let r = rate_limit now latency id p (decode req.body) s in (r.0, (a.1, r.1))
          ]
