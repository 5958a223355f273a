-- ===== src/Serving/Retry.antt =====
-- Retries under an idempotency key.
use borges_labs.Base.{
  ◌≡◌, sym, ap, ◌∙◌, inl, inr, false, none, some, [], Str, arith, is_empty, Option-cases,
  lookup-insert_self, ℕ,
}
use borges_labs.Clock.{Time, Platform}
use borges_labs.Contracts.{AuthorizeRequest, Decision}
use borges_labs.Policies.{Result, ok, err}
use borges_labs.Engine.{Engine, authorize}
use borges_labs.Serving.{
  idem_key, mem_decisions, mem_lookup, mem_save, Decisions, Principal, Answer, replayed, issued,
  idempotent_replay, save_idempotent, replay_from, save_to, respond, handle_authorize,
}

module _ {W : Type 0} (platform : Platform) (e : Engine W) where
  abbrev pub handle :
      Time → ℕ → Str → Principal → AuthorizeRequest → W × Decisions → Answer × (W × Decisions)
  handle start latency id p req s =
      handle_authorize platform e (some mem_decisions) start latency id (some p) req s

  -- A stored decision is replayed.
  replay_hit :
      (start latency : ℕ) (id : Str) (p : Principal) (req : AuthorizeRequest) (w : W)
      (s : Decisions) {dec : Decision}
      → is_empty req.idempotency_key ≡ false
      → mem_lookup p.org_id req.idempotency_key s ≡ some dec
      → handle start latency id p req (w, s) ≡ (replayed dec, (w, s))
  unfolding handle_authorize idempotent_replay replay_from
  replay_hit start latency id p req w s k h = ground arith

  respond_stores :
      (p : Principal) (req : AuthorizeRequest) (r : Result Decision × W) (s : Decisions)
      {dec : Decision}
      → is_empty req.idempotency_key ≡ false
      → (respond platform e (some mem_decisions) (some p) req r s).0 ≡ issued dec
      → mem_lookup p.org_id req.idempotency_key
          (respond platform e (some mem_decisions) (some p) req r s).1.1
        ≡ some dec
  unfolding respond save_idempotent save_to mem_lookup mem_save
  respond_stores p req (err x, w) s k h = cc
  respond_stores p req (ok d, w) s {dec} k h =
      let same : d ≡ dec = ground arith in
      rw (k, same) (lookup-insert_self (idem_key p.org_id req.idempotency_key) dec s)

  -- Without a stored decision the engine is called.
  replay_miss :
      (start latency : ℕ) (id : Str) (p : Principal) (req : AuthorizeRequest) (w : W)
      (s : Decisions)
      → is_empty req.idempotency_key ≡ false
      → mem_lookup p.org_id req.idempotency_key s ≡ none
      → handle start latency id p req (w, s)
        ≡ respond platform e
            (some mem_decisions)
            (some p)
            (record req { evaluated_at = [] })
            (authorize platform e start latency id p.org_id
              (record req { evaluated_at = [] })
              p.shadow
              w)
            s
  unfolding handle_authorize idempotent_replay replay_from
  replay_miss start latency id p req w s k h = ground arith

  -- A decision that is issued is in the cache.
  issued_stored :
      (start latency : ℕ) (id : Str) (p : Principal) (req : AuthorizeRequest) (w : W)
      (s : Decisions) {dec : Decision}
      → is_empty req.idempotency_key ≡ false
      → (handle start latency id p req (w, s)).0 ≡ issued dec
      → mem_lookup p.org_id req.idempotency_key (handle start latency id p req (w, s)).1.1
        ≡ some dec
  issued_stored start latency id p req w s {dec} k h =
      elim (Option-cases (mem_lookup p.org_id req.idempotency_key s)) [
        | inl missing ↦
            let miss = replay_miss start latency id p req w s k missing in
            ap (λ (x : Answer × (W × Decisions)). mem_lookup p.org_id req.idempotency_key x.1.1)
              miss
            ∙ respond_stores p (record req { evaluated_at = [] })
                (authorize platform e start latency id p.org_id (record req { evaluated_at = [] })
                  p.shadow w)
                s k (sym (ap (λ (x : Answer × (W × Decisions)). x.0) miss) ∙ h)
        | inr (old, found) ↦ absurd (cc (replay_hit start latency id p req w s k found, h))
      ]

  -- Once a decision is issued to a caller under a key that is not empty, the next request, if it
  -- is of the same organisation under that key, is answered with this decision, whatever else it
  -- says and whatever clock and id it meets, and leaves the engine's state and the cache as they
  -- are. The cache is the one in memory.
  pub handle_authorize-replayed :
      (start latency start' latency' : ℕ) (id id' : Str) (p p' : Principal)
      (req req' : AuthorizeRequest) (w : W) (s : Decisions) {dec : Decision}
      → is_empty req.idempotency_key ≡ false
      → (handle start latency id p req (w, s)).0 ≡ issued dec
      → p'.org_id ≡ p.org_id
      → req'.idempotency_key ≡ req.idempotency_key
      → let after = (handle start latency id p req (w, s)).1 in
        handle start' latency' id' p' req' after ≡ (replayed dec, after)
  handle_authorize-replayed start latency start' latency' id id' p p' req req' w s k h same_org
        same_key =
      let after = (handle start latency id p req (w, s)).1 in
      replay_hit start' latency' id' p' req' after.0 after.1 (rw same_key k)
        (rw (same_org, same_key) (issued_stored start latency id p req w s k h))
