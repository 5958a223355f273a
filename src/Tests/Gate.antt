-- ===== src/Tests/Gate.antt =====
-- A request on its way through the authorize endpoint.
use borges_labs.Base.{◌≡◌, refl, ◌⊎◌, Option, none, some, List, [], Str, str}
use borges_labs.Contracts.{AuthorizeRequest}
use borges_labs.RateLimit.{Limiter, MemLimiter, default_tiers, resolve_tier, mem_limiter}
use borges_labs.Auth.{Principal, accepted, authenticate}
use borges_labs.Auth.Keys.{mem_keys}
use borges_labs.Auth.Replay.{mem_nonces}
use borges_labs.Serving.{mem_decisions, Decisions}
use borges_labs.Audit.{Record}
use borges_labs.Gateway.{rate_limit, handle, authorize_endpoint, validate_authorize_request}
use borges_labs.Gateway.Gated.{IsAdmitted, IsStopped, IsHandled, authorize_endpoint_gated}
use borges_labs.Tests.Data.{noon, platform, request, engine, policy, World}
use borges_labs.Tests.Access.{plain_platform, config, one_key, signed_request}

abbrev decoded : Str → Option AuthorizeRequest
decoded body = some (record request { idempotency_key = str "key-0001" })

-- A limiter that fails lets the call pass.
abbrev broken : Limiter MemLimiter
broken = record { allow = λ key lim l. (none, l) }

fails_open :
    (p : Principal)
    → let state : (World × Decisions) × List Record = ((([], []), []), []) in
      (rate_limit platform
        (engine policy)
        (some mem_decisions)
        decoded
        default_tiers
        broken
        noon
        3
        (str "d1")
        p
        (decoded [])
        (([], []), state)).0
      ≡ (handle platform
          (engine policy)
          (some mem_decisions)
          decoded
          default_tiers
          noon
          3
          (str "d1")
          p
          (decoded [])
          state).0
unfolding rate_limit
fails_open p = refl

authorize_endpoint_gated_example :
    let r =
      authorize_endpoint platform
        (engine policy)
        (some mem_decisions)
        decoded
        default_tiers
        (mem_limiter noon)
        plain_platform
        mem_keys
        mem_nonces
        config
        noon
        3
        (str "d1")
        signed_request
        ((one_key, []), (([], []), ((([], []), []), []))) in
    IsStopped platform
      (engine policy)
      (some mem_decisions)
      decoded
      default_tiers
      (mem_limiter noon)
      plain_platform
      mem_keys
      mem_nonces
      config
      ((([], []), []), [])
      r.0
      r.1.1.1
    ⊎ ((p : Principal) × (sent : AuthorizeRequest) × ((authenticate plain_platform mem_keys
            mem_nonces config noon signed_request
            (one_key, [])).0
          ≡ accepted p)
        × IsAdmitted
            ((mem_limiter noon).allow p.key_id (resolve_tier default_tiers p.tier) ([], [])).0
        × (decoded signed_request.body ≡ some sent)
        × (validate_authorize_request sent ≡ [])
        × IsHandled platform
            (engine policy)
            (some mem_decisions)
            decoded
            default_tiers
            (mem_limiter noon)
            plain_platform
            mem_keys
            mem_nonces
            config
            noon
            3
            (str "d1")
            p
            sent
            ((([], []), []), [])
            r.0
            r.1.1.1)
authorize_endpoint_gated_example =
    authorize_endpoint_gated platform (engine policy) (some mem_decisions) decoded default_tiers
      (mem_limiter noon) plain_platform mem_keys mem_nonces config noon 3 (str "d1") signed_request
      (one_key, []) ([], []) ((([], []), []), [])
