-- ===== src/Tests/Retries.antt =====
-- Requests under one idempotency key.
use borges_labs.Base.{ℕ, ◌+◌, ◌≡◌, ◌≢◌, refl, zero, suc, false, [], ◌∷◌, str, arith, lookup}
use borges_labs.Engine.{authorize, resolve_policy, decide, finish}
use borges_labs.Evaluation.{assemble_decision}
use borges_labs.Contracts.{Decision}
use borges_labs.Serving.{advance, mem_lookup, arrived, saving, answered, replayed, issued, idem_key}
use borges_labs.Serving.Interleaved.{Call, System, Uses, Stands, step, run, run-replayed}
use borges_labs.Tests.Data.{World, noon, platform, org, request, policy, engine, decision_of}
use borges_labs.Tests.Decisions.{decided}

-- The first call and its retries, with other amounts, clocks and ids.
abbrev call : ℕ → Call
call zero = record {
  start = noon;
  latency = 7;
  id = str "d1";
  caller = record { org_id = org; shadow = false };
  request = request;
}
call (suc i) = record {
  start = noon + i;
  latency = 3;
  id = str "d2";
  caller = record { org_id = org; shadow = false };
  request = record request { amount = str "1.00" };
}

abbrev opening : System World
opening = record { phase = λ i. arrived; shared = (([], []), []) }

-- The first call has looked and has its decision, which it saves next.
abbrev before_save : System World
before_save = run platform (engine policy) call (0 ∷ 0 ∷ []) opening

decides_first : before_save.phase 0 ≡ saving (decision_of (decided policy false).0)
unfolding run step advance mem_lookup lookup authorize resolve_policy decide finish
decides_first = refl

others_wait :
    (i : ℕ)
    → i ≢ 0
    → Uses (idem_key org request.idempotency_key) (call i)
    → before_save.phase i ≡ arrived
unfolding run step
others_wait zero apart u = absurd (apart refl)
others_wait (suc i) apart u = ground arith

run-replayed_example :
    let dec = decision_of (decided policy false).0 in
    let end = run platform (engine policy) call (0 ∷ 2 ∷ 1 ∷ 2 ∷ []) before_save in
    (end.phase 0 ≡ answered (issued dec))
    × ((i : ℕ)
        → i ≢ 0
        → Uses (idem_key org request.idempotency_key) (call i)
        → Stands platform (engine policy) call dec (end.phase i)
          × ((step platform (engine policy) call i end).phase i ≡ answered (replayed dec))
          × ((step platform (engine policy) call i end).shared ≡ end.shared))
run-replayed_example =
    run-replayed platform (engine policy) call (idem_key org request.idempotency_key) 0 before_save
      (refl, refl) decides_first others_wait (2 ∷ 1 ∷ 2 ∷ [])

-- Two calls that both look before either saves get two decisions.
both_miss :
    let end = run platform (engine policy) call (0 ∷ 1 ∷ 0 ∷ 1 ∷ 0 ∷ 1 ∷ []) opening in
    (d : Decision) × (d' : Decision) × (end.phase 0 ≡ answered (issued d))
    × (end.phase 1 ≡ answered (issued d'))
    × (d.decision_id ≡ str "d1")
    × (d'.decision_id ≡ str "d2")
unfolding run step advance mem_lookup lookup authorize resolve_policy decide finish
    assemble_decision
both_miss = (_, _, refl, refl, refl, refl)
