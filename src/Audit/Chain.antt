-- ===== src/Audit/Chain.antt =====
-- The chain of an organisation's records: what the store keeps, read in plaintext.
use borges_labs.Base.{
  ℕ, suc, ◌≤◌, ◌<◌, ◌≡◌, refl, sym, ap, ◌∙◌, inl, inr, Option, none, some, List, [], ◌∷◌, ◌++◌, ◌⊎◌,
  map, Has, here, there, length, str, true, Str, arith, str_eq_self, str_eq, str_eq_iff,
  Option-cases, Bool-cases,
}
use borges_labs.Clock.{Time}
use borges_labs.Audit.{
  Record, HashView, hash_view, compute_record_hash, verify_chain_link, Encryptor,
}
use borges_labs.Audit.Store.{find, last_hash, encrypt_into, decrypt_into, linked}

abbrev pub IsLawful : {W : Type 0} → Encryptor W → Type 0
IsLawful {W} enc =
    (s : Str) (w : W) (c : Str) → (enc.encrypt s w).0 ≡ some c → enc.decrypt c ≡ some s

-- Each record is linked to the one before it.
abbrev pub IsChain : (HashView → Option Str) → Str → List Record → Type 0
IsChain digest prev [] = Unit
IsChain digest prev (r ∷ rs) =
    (r.prev_hash ≡ prev)
    × (verify_chain_link digest r ≡ some true)
    × IsChain digest r.record_hash rs

-- The numbers grow, from above one bound up to another.
abbrev pub IsRising : ℕ → ℕ → List Record → Type 0
IsRising low high [] = low ≤ high
IsRising low high (r ∷ rs) = (low < r.seq) × IsRising r.seq high rs

abbrev pub cons_some : {A : Type 0} → Option A → Option (List A) → Option (List A)
cons_some none rest = none
cons_some (some x) none = none
cons_some (some x) (some xs) = some (x ∷ xs)

module _ {W : Type 0} (enc : Encryptor W) where
  -- The records of a log, each decrypted.
  unfoldable pub decrypt_all : List Record → Option (List Record)
  decrypt_all [] = some []
  decrypt_all (r ∷ rs) = cons_some (decrypt_into enc r) (decrypt_all rs)

  pub decrypt_into-keeps :
      (x : Record) {p : Record}
      → decrypt_into enc x ≡ some p
      → (p.decision_id ≡ x.decision_id)
        × (p.record_hash ≡ x.record_hash)
        × (p.seq ≡ x.seq)
        × (p.agent_id ≡ x.agent_id)
        × (p.verdict ≡ x.verdict)
        × (p.evaluated_at ≡ x.evaluated_at)
  unfolding decrypt_into
  decrypt_into-keeps x e = ground arith

  pub decrypt_all-cons :
      (x : Record) (xs : List Record) {ps : List Record}
      → decrypt_all (x ∷ xs) ≡ some ps
      → (q : Record) × (qs : List Record) × (ps ≡ q ∷ qs)
        × (decrypt_into enc x ≡ some q)
        × (decrypt_all xs ≡ some qs)
  unfolding decrypt_all
  decrypt_all-cons x xs e = elim (Option-cases (decrypt_into enc x)) [
    | inl bad ↦ absurd (ground arith)
    | inr (q, head) ↦ elim (Option-cases (decrypt_all xs)) [
      | inl bad ↦ absurd (ground arith)
      | inr (qs, tail) ↦ (q, qs, ground arith, head, tail)
    ]
  ]

  pub decrypt-encrypt :
      IsLawful enc
      → (r : Record) (w : W) (x : Record) → (encrypt_into enc r w).0 ≡ some x
      → decrypt_into enc x ≡ some r
  unfolding encrypt_into decrypt_into
  decrypt-encrypt law r w x e =
      let a = enc.encrypt r.amount w in
      let t = enc.encrypt r.target_type a.1 in
      let i = enc.encrypt r.target_id t.1 in
      elim (Option-cases a.0) [
        | inl bad ↦ absurd (ground arith)
        | inr (ca, ea) ↦ elim (Option-cases t.0) [
          | inl bad ↦ absurd (ground arith)
          | inr (ct, et) ↦ elim (Option-cases i.0) [
            | inl bad ↦ absurd (ground arith)
            | inr (ci, ei) ↦ ground (
              arith,
              law r.amount w ca ea,
              law r.target_type a.1 ct et,
              law r.target_id t.1 ci ei,
            )
          ]
        ]
      ]

  pub decrypt_all-snoc :
      (xs ps : List Record) (x p : Record)
      → decrypt_all xs ≡ some ps
      → decrypt_into enc x ≡ some p
      → decrypt_all (xs ++ x ∷ []) ≡ some (ps ++ p ∷ [])
  unfolding decrypt_all
  decrypt_all-snoc [] ps x p all e = ground arith
  decrypt_all-snoc (y ∷ ys) ps x p all e =
      let (q, qs, same, head, tail) = decrypt_all-cons y ys all in
      rw (same, head, decrypt_all-snoc ys qs x p tail e) refl

  -- What the loops find in the log, they find in its plaintext.
  pub find-decrypt_all :
      (id : Str) (xs : List Record) {ps : List Record}
      → decrypt_all xs ≡ some ps
      → ((find id xs ≡ none) × (find id ps ≡ none))
        ⊎ ((x : Record) × (p : Record) × (find id xs ≡ some x)
            × (find id ps ≡ some p)
            × (decrypt_into enc x ≡ some p))
  unfolding decrypt_all find
  find-decrypt_all id [] all = inl (ground arith)
  find-decrypt_all id (y ∷ ys) all =
      let (q, qs, same, head, tail) = decrypt_all-cons y ys all in
      let id_of = (decrypt_into-keeps y head).0 in
      elim (Bool-cases (str_eq y.decision_id id)) [
        | inl it ↦ inr (y, q, ground arith, ground (arith, id_of), head)
        | inr other ↦ elim (find-decrypt_all id ys tail) [
          | inl both ↦ inl (ground arith, ground (arith, id_of))
          | inr (x, p, found, plain, e) ↦ inr (x, p, ground arith, ground (arith, id_of), e)
        ]
      ]

  pub last_hash-decrypt_all :
      (prev : Str) (xs : List Record) {ps : List Record}
      → decrypt_all xs ≡ some ps
      → last_hash prev ps ≡ last_hash prev xs
  unfolding decrypt_all last_hash
  last_hash-decrypt_all prev [] all = ground arith
  last_hash-decrypt_all prev (y ∷ ys) all =
      let (q, qs, same, head, tail) = decrypt_all-cons y ys all in
      rw same (
        ap (λ h. last_hash h qs) (decrypt_into-keeps y head).1
        ∙ last_hash-decrypt_all y.record_hash ys tail)

module _ (digest : HashView → Option Str) where
  linked-hash :
      (now : Time) (seq : ℕ) (prev hash : Str) (r : Record)
      → compute_record_hash digest prev (linked now seq prev hash r)
        ≡ compute_record_hash digest prev r
  unfolding linked compute_record_hash hash_view
  linked-hash now seq prev hash r = refl

  verifies :
      (p : Record) (hash : Str)
      → compute_record_hash digest p.prev_hash p ≡ some hash
      → verify_chain_link digest p ≡ some (str_eq hash p.record_hash)
  unfolding verify_chain_link str_eq
  verifies p hash e = rw (verify_chain_link, e) refl

  pub linked-verifies :
      (now : Time) (seq : ℕ) (prev hash : Str) (r : Record)
      → compute_record_hash digest prev r ≡ some hash
      → verify_chain_link digest (linked now seq prev hash r) ≡ some true
  unfolding linked
  linked-verifies now seq prev hash r e =
      verifies (linked now seq prev hash r) hash (linked-hash now seq prev hash r ∙ e)
      ∙ ap some (str_eq_self hash)

  pub IsChain-snoc :
      (prev : Str) (ps : List Record) (p : Record)
      → IsChain digest prev ps
      → p.prev_hash ≡ last_hash prev ps
      → verify_chain_link digest p ≡ some true
      → IsChain digest prev (ps ++ p ∷ [])
  unfolding last_hash
  IsChain-snoc prev [] p chain e v = (e, v, tt)
  IsChain-snoc prev (q ∷ qs) p chain e v =
      (chain.0, chain.1, IsChain-snoc q.record_hash qs p chain.2 e v)

pub IsRising-snoc :
    (low high : ℕ) (ps : List Record) (p : Record)
    → IsRising low high ps
    → p.seq ≡ suc high
    → IsRising low (suc high) (ps ++ p ∷ [])
IsRising-snoc low high [] p a e = omega arith
IsRising-snoc low high (q ∷ qs) p a e = (a.0, IsRising-snoc q.seq high qs p a.1 e)

pub IsRising-grows :
    (low high : ℕ) (ps : List Record) → IsRising low high ps → IsRising low (suc high) ps
IsRising-grows low high [] a = omega arith
IsRising-grows low high (q ∷ qs) a = (a.0, IsRising-grows q.seq high qs a.1)

-- What a record's hash is taken of.
abbrev pub view_of : Record → HashView
view_of r = hash_view r.prev_hash r

-- A record but for its number, its own hash, its retention and its time of creation.
abbrev pub hashed : Record → Record
hashed r = record r { seq = 0; record_hash = []; retain_until = 0; created_at = 0 }

abbrev of_view : HashView → Record
of_view v = record {
  seq = 0;
  decision_id = v.decision_id;
  org_id = v.org_id;
  api_key_id = v.api_key_id;
  agent_id = v.agent_id;
  action = v.action;
  amount = v.amount;
  currency = v.currency;
  target_type = v.target_type;
  target_id = v.target_id;
  jurisdiction = v.jurisdiction;
  verdict = v.verdict;
  policy_version_hash = v.policy_version_hash;
  explanation = v.explanation;
  obligations = v.obligations;
  signature = v.signature;
  latency_ms = v.latency_ms;
  evaluated_at = v.evaluated_at;
  shadow = v.shadow;
  prev_hash = v.prev_hash;
  record_hash = [];
  retain_until = 0;
  created_at = 0;
}

-- No two of the views have the same digest.
abbrev pub IsCollisionFree : (HashView → Option Str) → List HashView → List HashView → Type 0
IsCollisionFree digest vs ws =
    (v w : HashView) (h : Str) → Has v vs → Has w ws → digest v ≡ some h → digest w ≡ some h → v ≡ w

module _ (digest : HashView → Option Str) where
  verified_digest :
      (r : Record)
      → verify_chain_link digest r ≡ some true
      → (h : Str) × (digest (view_of r) ≡ some h) × (r.record_hash ≡ str "rh_" ++ h)
  unfolding verify_chain_link compute_record_hash
  verified_digest r e = elim (Option-cases (digest (view_of r))) [
    | inl bad ↦ absurd (ground arith)
    | inr (h, made) ↦ (h, made, sym ((str_eq_iff (str "rh_" ++ h) r.record_hash).0 (ground arith)))
  ]

  link-view : (x y : Record) → view_of x ≡ view_of y → x.prev_hash ≡ y.prev_hash
  unfolding hash_view
  link-view x y e = ap (λ v. v.prev_hash) e

  hashed-view : (x y : Record) → view_of x ≡ view_of y → hashed x ≡ hashed y
  unfolding hash_view
  hashed-view x y e = ap of_view e

  -- The last hash of a chain commits to the chain: two chains of the same length, each with valid
  -- links, that end in the same hash, where no two of their hashed contents collide, start from
  -- the same hash, and their records agree at every place, but for their numbers, retention and
  -- times of creation, which are not hashed.
  pub chain_commits :
      (prev start : Str) (xs ys : List Record)
      → IsChain digest prev xs
      → IsChain digest start ys
      → length xs ≡ length ys
      → last_hash prev xs ≡ last_hash start ys
      → IsCollisionFree digest (map view_of xs) (map view_of ys)
      → (prev ≡ start) × (map hashed xs ≡ map hashed ys)
  unfolding last_hash
  chain_commits prev start [] [] c d n e free = (e, refl)
  chain_commits prev start [] (y ∷ ys) c d n e free = absurd (omega (arith, n))
  chain_commits prev start (x ∷ xs) [] c d n e free = absurd (omega (arith, n))
  chain_commits prev start (x ∷ xs) (y ∷ ys) c d n e free =
      let (same, rest) =
        chain_commits x.record_hash y.record_hash xs ys c.2 d.2 (omega (arith, n)) e
          (λ v w h m k. free v w h (there m) (there k)) in
      let (h, made, hash) = verified_digest x c.1 in
      let (g, fixed, other) = verified_digest y d.1 in
      let equal : h ≡ g = ground (arith, same, hash, other) in
      let content = free (view_of x) (view_of y) h here here made (fixed ∙ ap some (sym equal)) in
      let link : x.prev_hash ≡ y.prev_hash = link-view x y content in
      (sym c.0 ∙ link ∙ d.0, rw (hashed-view x y content, rest) refl)
