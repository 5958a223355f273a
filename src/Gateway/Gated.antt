-- ===== src/Gateway/Gated.antt =====
-- What a request must be to reach the engine.
use borges_labs.Base.{
  ℕ, ◌≡◌, refl, ◌⊎◌, inl, inr, true, Option, none, some, List, [], Str, is_empty, Bool-cases,
}
use Prim.Native.String.{String}
use borges_labs.Clock.{Time, Platform}
use borges_labs.Contracts.{AuthorizeRequest}
use borges_labs.Engine.{Engine}
use borges_labs.RateLimit.{LimitDecision, Tiers, resolve_tier, Limiter}
use borges_labs.Auth.{
  Request, Principal, KeyStore, NonceStore, Config, Answer, accepted, denied, Error, authenticate,
}
use borges_labs.Auth as Auth
use borges_labs.Audit.{Record}
use borges_labs.Serving.{IdempotencyStore, handle_authorize}
use borges_labs.Validation.Servable.{is_empty_nil}
use borges_labs.Gateway.{
  Response, problem, caller_of, validate_authorize_request, responded, handle, rate_limit,
  authorize_endpoint, admit,
}

Answer-cases : (a : Answer) → ((e : Error) × (a ≡ denied e)) ⊎ ((p : Principal) × (a ≡ accepted p))
Answer-cases (denied e) = inl (e, refl)
Answer-cases (accepted p) = inr (p, refl)

-- The limiter let the call pass, or failed.
abbrev pub IsAdmitted : Option LimitDecision → Type 0
IsAdmitted none = Unit
IsAdmitted (some d) = d.allowed ≡ true

module _ {W S L K N : Type 0} (platform : Platform) (e : Engine W)
    (idem : Option (IdempotencyStore S)) (decode : Str → Option AuthorizeRequest) (tiers : Tiers)
    (limiter : Limiter L) (auth : Auth.Platform) (keys : KeyStore K) (nonces : NonceStore N)
    (cfg : Config) where
  -- The request was stopped on the way: a problem, and the state of the engine, of the idempotency
  -- cache and of the audit queue are as before.
  abbrev pub IsStopped : (W × S) × List Record → Response → (W × S) × List Record → Type 0
  IsStopped s answer after =
      ((status : ℕ) × (code : String) × (answer ≡ problem status code)) × (after ≡ s)

  -- The handler ran for the authenticated caller on a valid request.
  abbrev pub IsHandled :
      Time
      → ℕ
      → Str
      → Principal
      → AuthorizeRequest
      → (W × S) × List Record
      → Response
      → (W × S) × List Record
      → Type 0
  IsHandled now latency id p sent (ws, queue) answer after =
      (answer, after)
      ≡ responded platform e idem decode tiers p sent
          (handle_authorize platform e idem now latency id (some (caller_of p)) sent ws) queue

  handle_lem :
      (now : Time) (latency : ℕ) (id : Str) (p : Principal) (body : Option AuthorizeRequest)
      (s : (W × S) × List Record)
      → let r = handle platform e idem decode tiers now latency id p body s in
        IsStopped s r.0 r.1
        ⊎ ((sent : AuthorizeRequest) × (body ≡ some sent)
            × (validate_authorize_request sent ≡ [])
            × IsHandled now latency id p sent s r.0 r.1)
  unfolding handle
  handle_lem now latency id p none s = inl ((400, "validation_failed", refl), refl)
  handle_lem now latency id p (some sent) (ws, queue) =
      elim (Bool-cases (is_empty (validate_authorize_request sent))) [
        | inl valid ↦ inr (sent, refl, is_empty_nil _ valid, rw valid refl)
        | inr bad ↦ inl (rw bad ((400, "validation_failed", refl), refl))
      ]

  admit_lem :
      (d : Option LimitDecision) (served : Response × ((W × S) × List Record))
      (s : (W × S) × List Record)
      → let r = admit platform e idem decode tiers limiter d served s in
        IsStopped s r.0 r.1 ⊎ (IsAdmitted d × (r ≡ served))
  unfolding admit
  admit_lem none served s = inr (tt, refl)
  admit_lem (some d) served s = elim (Bool-cases d.allowed) [
    | inl open_now ↦ inr (open_now, rw open_now refl)
    | inr over ↦ inl (rw over ((429, "rate_limited", refl), refl))
  ]

  -- A request to the authorize endpoint is either stopped with a problem, which leaves the engine
  -- with its budgets, the idempotency cache and the audit queue as they were, or it is answered by
  -- the handler; then it was authenticated, the limiter let it pass or failed, it is valid, and
  -- the handler worked for the organisation and the shadow flag of the key.
  pub authorize_endpoint_gated :
      (now : Time) (latency : ℕ) (id : Str) (req : Request) (kn : K × N) (l : L)
      (s : (W × S) × List Record)
      → let r =
          authorize_endpoint platform e idem decode tiers limiter auth keys nonces cfg now latency
            id req
            (kn, (l, s)) in
        IsStopped s r.0 r.1.1.1
        ⊎ ((p : Principal) × (sent : AuthorizeRequest) × ((authenticate auth keys nonces cfg now req
                kn).0
              ≡ accepted p)
            × IsAdmitted (limiter.allow p.key_id (resolve_tier tiers p.tier) l).0
            × (decode req.body ≡ some sent)
            × (validate_authorize_request sent ≡ [])
            × IsHandled now latency id p sent s r.0 r.1.1.1)
  unfolding authorize_endpoint rate_limit
  authorize_endpoint_gated now latency id req kn l s =
      elim (Answer-cases (authenticate auth keys nonces cfg now req kn).0) [
        | inl (err, bad) ↦ inl (rw (authorize_endpoint, bad) ((err.status, err.code, refl), refl))
        | inr (p, known) ↦
            let d = (limiter.allow p.key_id (resolve_tier tiers p.tier) l).0 in
            let h = handle platform e idem decode tiers now latency id p (decode req.body) s in
            elim (admit_lem d h s) [
              | inl over ↦ inl (rw (authorize_endpoint, known, rate_limit) over)
              | inr (within, same) ↦ elim (handle_lem now latency id p (decode req.body) s) [
                | inl stopped ↦ inl (rw (authorize_endpoint, known, rate_limit, same) stopped)
                | inr (sent, read, valid, handled) ↦ inr (
                  p,
                  sent,
                  known,
                  within,
                  read,
                  valid,
                  rw (authorize_endpoint, known, rate_limit, same) handled,
                )
              ]
            ]
      ]
