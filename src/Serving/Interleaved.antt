-- ===== src/Serving/Interleaved.antt =====
-- Requests that are served at the same time (services/authorize-svc/internal/server/authorize.go): a
-- schedule names the request that takes its next step, which is its lookup, its call of the
-- engine, or its save. The cache is the one in memory, which drops nothing.
use borges_labs.Base.{
  ℕ, ◌≡◌, ◌≢◌, refl, ap, ◌∙◌, ◌⊎◌, inl, inr, true, false, some, List, [], ◌∷◌, Str, arith, is_empty,
  Bool-cases, Option-cases, if◌then◌else◌, ◌==◌, lookup, lookup-insert_self, lookup-insert, str_eq,
  str_eq_iff,
}
use borges_labs.Clock.{Time, Platform}
use borges_labs.Contracts.{AuthorizeRequest, Decision}
use borges_labs.Policies.{Result, ok, err}
use borges_labs.Engine.{Engine, authorize}
use borges_labs.Serving.{
  idem_key, mem_decisions, mem_lookup, mem_save, Decisions, Principal, Answer, replayed, issued,
  idempotent_replay, save_idempotent, replay_from, save_to, respond, handle_authorize, Phase,
  arrived, evaluating, saving, answered, advance, looked, evaluated,
}

-- A request, with what its clock and its source of ids give it.
pub record Call : Type 0 where
  pub start : Time
  pub latency : ℕ
  pub id : Str
  pub caller : Principal
  pub request : AuthorizeRequest

pub record System (W : Type 0) : Type 0 where
  pub phase : ℕ → Phase
  pub shared : W × Decisions

eq_cases : (i j : ℕ) → ((i ≡ j) × ((i == j) ≡ true)) ⊎ ((i ≢ j) × ((i == j) ≡ false))
eq_cases i j = elim (Bool-cases (i == j)) [
  | inl e ↦ inl (ground arith, e)
  | inr e ↦ inr (ground arith, e)
]

abbrev pub update : (ℕ → Phase) → ℕ → Phase → ℕ → Phase
update f i p j = if i == j then p else f j

-- A request uses a key of the cache: without an idempotency key it neither looks nor saves.
abbrev pub Uses : Str → Call → Type 0
Uses k c =
    (is_empty c.request.idempotency_key ≡ false)
    × (idem_key c.caller.org_id c.request.idempotency_key ≡ k)

module _ {W : Type 0} (platform : Platform) (e : Engine W) (calls : ℕ → Call) where
  unfoldable pub step : ℕ → System W → System W
  step i sys =
      let c = calls i in
      let r =
        advance platform e (some mem_decisions) c.start c.latency c.id (some c.caller) c.request
          (sys.phase i) sys.shared in
      record { phase = update sys.phase i r.0; shared = r.1 }

  unfoldable pub run : List ℕ → System W → System W
  run [] sys = sys
  run (i ∷ schedule) sys = run schedule (step i sys)

  -- Where another request under the key may stand once `dec` is saved there.
  abbrev pub Stands : Decision → Phase → Type 0
  Stands dec phase = (phase ≡ arrived) ⊎ (phase ≡ answered (replayed dec))

  -- Request `j` has saved `dec` under the key, and no other one missed the cache before.
  record IsSaved (k : Str) (dec : Decision) (j : ℕ) (sys : System W) : Type 0 where
    found : lookup k sys.shared.1 ≡ some dec
    done : sys.phase j ≡ answered (issued dec)
    others : (i : ℕ) → i ≢ j → Uses k (calls i) → Stands dec (sys.phase i)

  abbrev proceed : Call → Phase → W × Decisions → Phase × (W × Decisions)
  proceed c phase ws =
      advance platform e (some mem_decisions) c.start c.latency c.id (some c.caller) c.request phase
        ws

  finish_alone :
      (c : Call) (r : Result Decision × W) (s : Decisions)
      → let req = record c.request { evaluated_at = [] } in
        let a = respond platform e (some mem_decisions) (some c.caller) req r s in
        proceed c (evaluated platform e (some mem_decisions) r.0) (r.1, s) ≡ (answered a.0, a.1)
  unfolding advance respond evaluated
  finish_alone c (ok d, w) s = refl
  finish_alone c (err x, w) s = refl

  -- The steps of a request that no other one meets are `handle_authorize`.
  advance_alone :
      (c : Call) (w : W) (s : Decisions)
      → let a = proceed c arrived (w, s) in
        let b = proceed c a.0 a.1 in
        let r =
          handle_authorize platform e
            (some mem_decisions)
            c.start
            c.latency
            c.id
            (some c.caller)
            c.request
            (w, s) in
        proceed c b.0 b.1 ≡ (answered r.0, r.1)
  unfolding advance handle_authorize looked
  advance_alone c w s =
      let req = record c.request { evaluated_at = [] } in
      let look = idempotent_replay platform e (some mem_decisions) (some c.caller) req s in
      let engine =
        authorize platform e c.start c.latency c.id c.caller.org_id req c.caller.shadow w in
      elim (Option-cases look.0) [
        | inl miss ↦ rw (handle_authorize, miss) (finish_alone c engine look.1)
        | inr (d, hit) ↦ rw (handle_authorize, hit) refl
      ]

  save_kept :
      (c : Call) (k : Str) (s : Decisions) (d : Decision) {dec : Decision}
      → lookup k s ≡ some dec
      → ¬ Uses k c
      → lookup k (save_idempotent platform e (some mem_decisions) (some c.caller) c.request d s)
        ≡ some dec
  unfolding save_idempotent save_to mem_save
  save_kept c k s d {dec} h other = elim (Bool-cases (is_empty c.request.idempotency_key)) [
    | inl empty ↦ rw empty h
    | inr named ↦
        elim (Bool-cases (str_eq (idem_key c.caller.org_id c.request.idempotency_key) k)) [
          | inl same ↦ absurd (other (named, (str_eq_iff _ k).0 same))
          | inr apart ↦ rw (named, lookup-insert, apart) h
        ]
  ]

  proceed_kept :
      (c : Call) (k : Str) (phase : Phase) (w : W) (s : Decisions) {dec : Decision}
      → lookup k s ≡ some dec
      → (Uses k c → (d : Decision) → ¬ (phase ≡ saving d))
      → lookup k (proceed c phase (w, s)).1.1 ≡ some dec
  unfolding advance idempotent_replay replay_from
  proceed_kept c k arrived w s h quiet = ground (arith, h)
  proceed_kept c k evaluating w s h quiet = h
  proceed_kept c k (saving d) w s h quiet =
      save_kept (record c { request = record c.request { evaluated_at = [] } }) k s d h
        (λ u. quiet u d refl)
  proceed_kept c k (answered a) w s h quiet = h

  proceed_replays :
      (c : Call) (k : Str) (w : W) (s : Decisions) {dec : Decision}
      → lookup k s ≡ some dec
      → Uses k c
      → proceed c arrived (w, s) ≡ (answered (replayed dec), (w, s))
  unfolding advance idempotent_replay replay_from mem_lookup looked
  proceed_replays c k w s h (named, same) = rw (named, same, h) refl

  proceed-Stands :
      (c : Call) (k : Str) (phase : Phase) (w : W) (s : Decisions) {dec : Decision}
      → lookup k s ≡ some dec
      → Uses k c
      → Stands dec phase
      → proceed c phase (w, s) ≡ (answered (replayed dec), (w, s))
  unfolding advance
  proceed-Stands c k phase w s h u (inl e) = rw e (proceed_replays c k w s h u)
  proceed-Stands c k phase w s h u (inr e) = rw e refl

  step_saves :
      (k : Str) (j : ℕ) (sys : System W) {dec : Decision}
      → Uses k (calls j)
      → sys.phase j ≡ saving dec
      → ((i : ℕ) → i ≢ j → Uses k (calls i) → sys.phase i ≡ arrived)
      → IsSaved k dec j (step j sys)
  unfolding step advance save_idempotent save_to mem_save
  step_saves k j sys {dec} (named, same) e waits = record {
    found = rw (e, named, same) (lookup-insert_self k dec sys.shared.1);
    done = ground (arith, e);
    others = λ i apart u. inl (ground (arith, waits i apart u));
  }

  quiet_phase :
      (k : Str) (dec : Decision) (j i : ℕ) (sys : System W)
      → IsSaved k dec j sys
      → Uses k (calls i)
      → (d : Decision) → ¬ (sys.phase i ≡ saving d)
  quiet_phase k dec j i sys saved u d e = elim (eq_cases i j) [
    | inl (same, b) ↦ absurd (cc (e, ap sys.phase same, saved.done))
    | inr (apart, b) ↦ elim (saved.others i apart u) [
      | inl a ↦ absurd (cc (a, e))
      | inr a ↦ absurd (cc (a, e))
    ]
  ]

  proceed_answered :
      (c : Call) (a : Answer) (phase : Phase) (ws : W × Decisions)
      → phase ≡ answered a
      → proceed c phase ws ≡ (answered a, ws)
  unfolding advance
  proceed_answered c a phase ws e = rw e refl

  step_kept :
      (k : Str) (dec : Decision) (j i : ℕ) (sys : System W)
      → IsSaved k dec j sys
      → IsSaved k dec j (step i sys)
  unfolding step
  step_kept k dec j i sys saved = record {
    found =
        proceed_kept (calls i) k (sys.phase i) sys.shared.0 sys.shared.1 saved.found
          (quiet_phase k dec j i sys saved);
    done = elim (eq_cases i j) [
      | inl (same, b) ↦ rw b (
          ap (λ x. x.0)
            (proceed_answered (calls i) (issued dec) (sys.phase i) sys.shared
              (ap sys.phase same ∙ saved.done)))
      | inr (apart, b) ↦ rw b saved.done
    ];
    others = λ m apart u. elim (eq_cases i m) [
      | inl (same, b) ↦ rw b (
          inr (
            ap (λ x. x.0)
              (proceed-Stands (calls i) k (sys.phase i) sys.shared.0 sys.shared.1 saved.found
                (rw same u) (rw same (saved.others m apart u)))))
      | inr (other, b) ↦ rw b (saved.others m apart u)
    ];
  }

  run_kept :
      (k : Str) (dec : Decision) (j : ℕ) (schedule : List ℕ) (sys : System W)
      → IsSaved k dec j sys
      → IsSaved k dec j (run schedule sys)
  unfolding run
  run_kept k dec j [] sys saved = saved
  run_kept k dec j (i ∷ schedule) sys saved =
      run_kept k dec j schedule (step i sys) (step_kept k dec j i sys saved)

  -- When a request saves its decision under a key while every other request under the key is
  -- still before its lookup, then after any further schedule, with steps of these and of other
  -- requests in any order, it is answered with its decision, and each other request under the key
  -- is still before its lookup or is answered with the same decision as a replay; its next step
  -- leaves it answered so, and the engine's state and the cache as they are. The cache is the one
  -- in memory, which drops nothing, and a request under the key has an idempotency key.
  pub run-replayed :
      (k : Str) (j : ℕ) (sys : System W) {dec : Decision}
      → Uses k (calls j)
      → sys.phase j ≡ saving dec
      → ((i : ℕ) → i ≢ j → Uses k (calls i) → sys.phase i ≡ arrived)
      → (schedule : List ℕ)
      → let end = run (j ∷ schedule) sys in
        (end.phase j ≡ answered (issued dec))
        × ((i : ℕ)
            → i ≢ j
            → Uses k (calls i)
            → Stands dec (end.phase i)
              × ((step i end).phase i ≡ answered (replayed dec))
              × ((step i end).shared ≡ end.shared))
  unfolding run step
  run-replayed k j sys {dec} uses ready waits schedule =
      let end = run schedule (step j sys) in
      let saved = run_kept k dec j schedule (step j sys) (step_saves k j sys uses ready waits) in
      (
        saved.done,
        λ i apart u.
            let next =
              proceed-Stands (calls i) k (end.phase i) end.shared.0 end.shared.1 saved.found u
                (saved.others i apart u) in
            (saved.others i apart u, ground (arith, ap (λ x. x.0) next), ap (λ x. x.1) next),
      )
