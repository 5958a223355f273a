-- ===== src/Serving.antt =====
-- The authorize handler behind decoding and validation (services/authorize-svc/internal/server/
-- authorize.go), and the idempotency cache (internal/idempotency/idempotency.go), as an
-- interface and in memory. The metrics, the headers and the audit record, which is handed to a
-- background writer after the answer, are left out. `handle_authorize` is one request that no other
-- one meets; `advance` takes its steps one at a time, and Serving.Interleaved mixes requests.
pub mod Retry
pub mod Interleaved
use borges_labs.Base.{
  ℕ, Bool, true, false, Option, none, some, [], ◌++◌, Str, str, is_empty, if◌then◌else◌, Dict,
  lookup, insert,
}
use borges_labs.Clock.{Time, Platform}
use borges_labs.Contracts.{AuthorizeRequest, Decision}
use borges_labs.Policies.{Result, ok, err}
use borges_labs.Engine.{Engine, authorize}

-- `key(orgID, idemKey)`
unfoldable pub idem_key : Str → Str → Str
idem_key org key = str "idem:" ++ (org ++ (str ":" ++ key))

-- The store: `Lookup` answers `none` on an error, and `Save` whether it succeeded.
pub record IdempotencyStore (S : Type 0) : Type 0 where
  pub lookup_decision : Str → Str → S → Option (Option Decision) × S
  pub save : Str → Str → Decision → S → Bool × S

abbrev pub Decisions : Type 0
Decisions = Dict Decision

-- `Mem`
unfoldable pub mem_lookup : Str → Str → Decisions → Option Decision
mem_lookup org key m = lookup (idem_key org key) m

unfoldable pub mem_save : Str → Str → Decision → Decisions → Decisions
mem_save org key dec m = insert (idem_key org key) dec m

abbrev pub mem_decisions : IdempotencyStore Decisions
mem_decisions = record {
  lookup_decision = λ org key m. (some (mem_lookup org key m), m);
  save = λ org key dec m. (true, mem_save org key dec m);
}

-- What the authenticated key says about its caller.
pub record Principal : Type 0 where
  pub org_id : Str
  pub shadow : Bool

pub data Answer : Type 0 where
  replayed issued : Decision → Answer
  unavailable : Answer

-- A read of the cache: an error counts as a miss.
abbrev pub hit_of : Option (Option Decision) → Option Decision
hit_of none = none
hit_of (some hit) = hit

-- Where a request stands in `handleAuthorize`: before its lookup, after it missed, before its save.
pub data Phase : Type 0 where
  arrived evaluating : Phase
  saving : Decision → Phase
  answered : Answer → Phase

module _ {W S : Type 0} (platform : Platform) (e : Engine W)
    (idem : Option (IdempotencyStore S)) where
  replay_from : IdempotencyStore S → Option Principal → AuthorizeRequest → S → Option Decision × S
  replay_from store none req s = (none, s)
  replay_from store (some p) req s =
      let step = store.lookup_decision p.org_id req.idempotency_key s in
      if is_empty req.idempotency_key then (none, s) else (hit_of step.0, step.1)

  -- `idempotentReplay`
  unfoldable pub idempotent_replay : Option Principal → AuthorizeRequest → S → Option Decision × S
  unfolding replay_from
  idempotent_replay p req s = elim idem [
    | none ↦ (none, s)
    | some store ↦ replay_from store p req s
  ]

  save_to : IdempotencyStore S → Option Principal → AuthorizeRequest → Decision → S → S
  save_to store none req dec s = s
  save_to store (some p) req dec s =
      let step = store.save p.org_id req.idempotency_key dec s in
      if is_empty req.idempotency_key then s else step.1

  -- `saveIdempotent`
  unfoldable pub save_idempotent : Option Principal → AuthorizeRequest → Decision → S → S
  unfolding save_to
  save_idempotent p req dec s = elim idem [ none ↦ s | some store ↦ save_to store p req dec s ]

  abbrev pub org_of : Option Principal → Str
  org_of none = []
  org_of (some p) = p.org_id

  abbrev pub shadow_of : Option Principal → Bool
  shadow_of none = false
  shadow_of (some p) = p.shadow

  -- The handler on a fresh request, after the call of the engine.
  respond : Option Principal → AuthorizeRequest → Result Decision × W → S → Answer × (W × S)
  respond p req (ok dec, w) s = (issued dec, (w, save_idempotent p req dec s))
  respond p req (err x, w) s = (unavailable, (w, s))

  -- `handleAuthorize`, on a request that is decoded and valid, while no other one is served.
  unfoldable pub handle_authorize :
      Time → ℕ → Str → Option Principal → AuthorizeRequest → W × S → Answer × (W × S)
  unfolding respond idempotent_replay save_idempotent
  handle_authorize start latency id p sent (w, s) =
      let req = record sent { evaluated_at = [] } in
      let step = idempotent_replay p req s in
      elim step.0 [
        | some dec ↦ (replayed dec, (w, step.1))
        | none ↦
            respond p req (authorize platform e start latency id (org_of p) req (shadow_of p) w)
              step.1
      ]

  looked : Option Decision → Phase
  looked none = evaluating
  looked (some dec) = answered (replayed dec)

  evaluated : Result Decision → Phase
  evaluated (ok dec) = saving dec
  evaluated (err x) = answered unavailable

  -- The next step of `handleAuthorize`: the lookup, the call of the engine, or the save.
  unfoldable pub advance :
      Time → ℕ → Str → Option Principal → AuthorizeRequest → Phase → W × S → Phase × (W × S)
  unfolding looked evaluated idempotent_replay save_idempotent
  advance start latency id p sent arrived (w, s) =
      let step = idempotent_replay p (record sent { evaluated_at = [] }) s in
      (looked step.0, (w, step.1))
  advance start latency id p sent evaluating (w, s) =
      let req = record sent { evaluated_at = [] } in
      let r = authorize platform e start latency id (org_of p) req (shadow_of p) w in
      (evaluated r.0, (r.1, s))
  advance start latency id p sent (saving dec) (w, s) =
      (answered (issued dec), (w, save_idempotent p (record sent { evaluated_at = [] }) dec s))
  advance start latency id p sent (answered a) ws = (answered a, ws)
