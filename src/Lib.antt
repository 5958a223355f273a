-- ===== src/Lib.antt =====
-- Verification of the authorization decision plane (services/authorize-svc).
--
-- A request to move money is decided by the local rules of the organisation's policy, whose
-- results the verdict algebra combines; if these approve and a budget governs the agent, the
-- budget is reserved, which decides in its turn. A reservation moves a counter and places a hold
-- in the ledger. The caller captures or voids the hold, or a sweep expires it.
--
-- The modules, and the code that each is about (paths below services/authorize-svc/internal, if
-- no other is given):
--   Base, with its children Tests, Lists, Int, Text, Maps: what all modules share, among it
--     Go's int64 arithmetic with its wrap-around, strings as bytes, and maps.
--   Clock: instants as nanoseconds, and the parts of Go's library that are parameters.
--   Contracts: contracts/gen/go/contractsv1/types.go.
--   Verdict: engine/verdict.go; Verdict.Algebra proves its laws.
--   Predicate: engine/predicate.go, predicates.go, construct.go; Predicate.Money is parseMoney
--     and its exact numbers; Predicate.Rules says when each rule is satisfied.
--   Policies, Explain, Budgeting, Evaluation, Engine: engine/engine.go. `authorize` is
--     Engine.Authorize, with `decide`, `budget_step` and `finish` for its parts in their order;
--     `evaluate_policy` is Evaluate.
--     Engine.Local, Engine.Budgeted and Engine.Authorized prove what a decision rests on.
--   Cents: budget/budget.go; Cents.Format and Cents.Exact relate amounts and texts.
--   Counter: budget/counter.go; Counter.NoOversell is about sequences of reservations.
--   Hold: hold/hold.go, with one function per method of MemStore; Hold.Transitions has the life
--     cycle as a relation and histories of calls, Hold.Once counts releases.
--   Reserver: budget/reserver.go and reconcile.go, over the interfaces of counter and ledger;
--     Reserver.Ledger, Release and Settle relate the counter to the ledger.
--   RateLimit: ratelimit/ratelimit.go; RateLimit.Bound is about histories of calls.
--   Authoring: policyctl/policyctl.go, store.go, the store of policies and published versions;
--     Authoring.Immutable is about histories of writes.
--   Loader: policy/policy.go; Loader.Sound says what it accepts.
--   Bundle: bundle/bundle.go, over Authoring's store and the Loader; Bundle.Compiled is about
--     compilation, Bundle.Cache and Bundle.Outage about the provider. Its `active` is what the
--     Engine takes as its provider.
--   Serving: server/authorize.go behind decoding and validation, and idempotency/idempotency.go;
--     Serving.Retry is about a retry, Serving.Interleaved about requests that are served at the same
--     time: the lookup, the call of the engine and the save are a step each.
--   Audit: audit/audit.go; Audit.Store is memory.go and Audit.Crypto crypto.go. Audit.Chain is about
--     the hash chain, Audit.Refined about the log as an abstract list, Audit.Listing about pages,
--     and Audit.Queue is writer.go.
--   Skew: the timestamp check of auth/auth.go; Skew.Within says what passes.
--   Auth: auth/auth.go; Auth.Genuine says which requests are authenticated. Auth.Replay is the
--     nonce store of memory.go and requests sent again, Auth.Canonical is about the signed string,
--     Auth.Keys is memory.go, admin.go, the cached key store of redis.go, and NewKey.
--   Validation: policyctl/validate.go, over the Loader; Validation.Servable relates it to Bundle.
--   Publishing: policyctl/service.go, over Authoring and Validation; Publishing.Consistent and
--     Served follow the store through histories of calls, Publishing.Outcome says what a call that
--     succeeds has done.
--   Gateway: the authorize endpoint of server/middleware.go and authorize.go, from authentication
--     to the audit queue; Gateway.Gated says what reaches the engine. Gateway.Holds is holds.go,
--     over the Reserver; Gateway.Settled is about voids that are sent again.
--   Tests: concrete inputs.
--
-- State is passed explicitly: a method that changes a store takes its state and returns the
-- next one. The engine works on the state of its collaborators, so that calls happen in the
-- order of the code. A method under a mutex is one step; interleavings of requests are sequences
-- of such steps. Clocks, the fresh decision id and the latency are arguments. The iteration
-- order of a Go map is the order of the list that stands for it, on which no theorem depends.
-- Loops are recursions on lists; the only fuel is that of `digits_of`, the printing of a number,
-- where one more than the number is enough, as Cents.Format proves. A client that follows the
-- cursors of a listing has fuel too, one more than the records that are listed.
--
-- Amounts are int64 cents with wrap-around, and the exact numbers of the local rules are
-- fractions. RFC 3339 times, the formats of a date, and what big.Rat reads beyond a plain
-- decimal are the fields of `Platform`; a signer is a function from decisions to signatures.
-- The content hash of a policy file is a parameter too, and so are JSON and the canonical form
-- behind it; a rule that is written to JSON and read back as the loader's document is `recode`.
-- Texts for people are kept as format and arguments. SHA-256, HMAC, hex, base64, AES-GCM, the JSON
-- schema and the sources of randomness are parameters of Audit, Auth, Validation and Publishing,
-- with what the code relies on as hypotheses.
--
-- Not modelled: the Redis and Postgres stores, whose scripts run elsewhere; Ed25519 and the
-- canonical form of JSON; HTTP, configuration, metrics, tracing; the handlers of server beside
-- authorize, capture and void, the simulator of bundle, and the clients in other languages.
pub mod Base
pub mod Clock
pub mod Contracts
pub mod Verdict
pub mod Predicate
pub mod Policies
pub mod Explain
pub mod Budgeting
pub mod Evaluation
pub mod Engine
pub mod Cents
pub mod Counter
pub mod Hold
pub mod Reserver
pub mod RateLimit
pub mod Authoring
pub mod Loader
pub mod Bundle
pub mod Serving
pub mod Audit
pub mod Skew
pub mod Auth
pub mod Validation
pub mod Publishing
pub mod Gateway
mod Tests
