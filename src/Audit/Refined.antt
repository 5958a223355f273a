-- ===== src/Audit/Refined.antt =====
-- What the audit log promises, apart from numbers, hashes and ciphertext: for each organisation a
-- list of plaintext records that is only ever appended to.
use borges_labs.Base.{
  ℕ, suc, ◌≡◌, refl, sym, ◌∙◌, inl, inr, Option, none, some, List, [], ◌∷◌, ◌++◌, true, Str, arith,
  str_eq, str_eq_iff, lookup, insert, lookup-insert, Option-cases, Bool-cases, if◌then◌else◌,
}
use borges_labs.Clock.{Time}
use borges_labs.Audit.{
  genesis_prev, Record, HashView, compute_record_hash, verify_chain_link, Encryptor,
}
use borges_labs.Audit.Store.{
  MemStore, empty_log, log_of, find, last_hash, encrypt_into, decrypt_into, linked, append,
}
use borges_labs.Audit.Chain.{
  IsLawful, IsChain, IsRising, decrypt_all, decrypt-encrypt, decrypt_all-snoc, find-decrypt_all,
  last_hash-decrypt_all, linked-verifies, IsChain-snoc, IsRising-snoc, IsRising-grows,
}

abbrev pub SpecLog : Type 0
SpecLog = Str → List Record

abbrev pub extend : Str → Record → SpecLog → SpecLog
extend org p log o = if str_eq org o then log o ++ p ∷ [] else log o

-- A record as it is submitted: what an append assigns is left blank.
abbrev pub submitted : Record → Record
submitted r = record r { seq = 0; prev_hash = []; record_hash = []; created_at = 0 }

abbrev pub SameContent : Record → Record → Type 0
SameContent p r = submitted p ≡ submitted r

linked-SameContent :
    (now : Time) (seq : ℕ) (prev hash : Str) (r : Record)
    → SameContent (linked now seq prev hash r) r
unfolding linked
linked-SameContent now seq prev hash r = refl

linked-seq :
    (now : Time) (seq : ℕ) (prev hash : Str) (r : Record) → (linked now seq prev hash r).seq ≡ seq
unfolding linked
linked-seq now seq prev hash r = refl

linked-prev_hash :
    (now : Time) (seq : ℕ) (prev hash : Str) (r : Record)
    → (linked now seq prev hash r).prev_hash ≡ prev
unfolding linked
linked-prev_hash now seq prev hash r = refl

module _ {W : Type 0} (enc : Encryptor W) (digest : HashView → Option Str) where
  -- What may happen to a log when a record is submitted, and the answers.
  pub data Accepts (log : SpecLog) (r : Record) : Option Record → SpecLog → Type 0 where
    repeated :
        {x : Record} → find r.decision_id (log r.org_id) ≡ some x → Accepts log r (some r) log
    unhashed :
        find r.decision_id (log r.org_id) ≡ none
        → compute_record_hash digest (last_hash genesis_prev (log r.org_id)) r ≡ none
        → Accepts log r none log
    unencrypted :
        (p : Record) (w : W)
        → find r.decision_id (log r.org_id) ≡ none
        → SameContent p r
        → (encrypt_into enc p w).0 ≡ none
        → Accepts log r none log
    committed :
        (p : Record)
        → find r.decision_id (log r.org_id) ≡ none
        → SameContent p r
        → p.prev_hash ≡ last_hash genesis_prev (log r.org_id)
        → verify_chain_link digest p ≡ some true
        → Accepts log r (some p) (extend r.org_id p log)

  abbrev pub Implements : MemStore → SpecLog → Type 0
  Implements m log =
      (o : Str)
      → (decrypt_all enc (log_of o m) ≡ some (log o))
        × IsChain digest genesis_prev (log o)
        × IsRising 0 m.seq (log o)

  pub Simulates : SpecLog → Record → Option Record × (MemStore × W) → Type 0
  Simulates log r (answer, (m, w)) =
      (after : SpecLog) × Accepts log r answer after × Implements m after

  count-Implements :
      (m : MemStore) (log : SpecLog)
      → Implements m log
      → Implements (record { seq = suc m.seq; by_org = m.by_org }) log
  count-Implements m log i o = ((i o).0, (i o).1, IsRising-grows 0 m.seq (log o) (i o).2)

  stored-Implements :
      (m : MemStore) (log : SpecLog) (org : Str) (x p : Record)
      → Implements m log
      → decrypt_into enc x ≡ some p
      → p.prev_hash ≡ last_hash genesis_prev (log org)
      → verify_chain_link digest p ≡ some true
      → p.seq ≡ suc m.seq
      → Implements
          (record { seq = suc m.seq; by_org = insert org (log_of org m ++ x ∷ []) m.by_org })
          (extend org p log)
  stored-Implements m log org x p i e prev v n o = elim (Bool-cases (str_eq org o)) [
    | inl same ↦
        let it = (str_eq_iff org o).0 same in
        rw (lookup-insert org o (log_of org m ++ x ∷ []) m.by_org, same, it)
          (
            decrypt_all-snoc enc (log_of o m) (log o) x p (i o).0 e,
            IsChain-snoc digest genesis_prev (log o) p (i o).1 (rw (← it) prev) v,
            IsRising-snoc 0 m.seq (log o) p (i o).2 n,
          )
    | inr other ↦
        rw (lookup-insert org o (log_of org m ++ x ∷ []) m.by_org, other)
          (count-Implements m log i o)
  ]

  -- The end of an append, once the record is found to be new and is hashed.
  fresh-Simulates :
      IsLawful enc
      → (now : Time) (r : Record) (m : MemStore) (w : W) (log : SpecLog) (hash : Str)
      → Implements m log
      → find r.decision_id (log_of r.org_id m) ≡ none
      → find r.decision_id (log r.org_id) ≡ none
      → last_hash genesis_prev (log r.org_id) ≡ last_hash genesis_prev (log_of r.org_id m)
      → compute_record_hash digest (last_hash genesis_prev (log_of r.org_id m)) r ≡ some hash
      → Simulates log r (append enc digest now r (m, w))
  unfolding append Simulates
  fresh-Simulates law now r m w log hash i absent new prev hashed =
      let last = last_hash genesis_prev (log_of r.org_id m) in
      let p = linked now (suc m.seq) last hash r in
      let same = linked-SameContent now (suc m.seq) last hash r in
      let back = linked-prev_hash now (suc m.seq) last hash r ∙ sym prev in
      let valid = linked-verifies digest now (suc m.seq) last hash r hashed in
      elim (Option-cases (encrypt_into enc p w).0) [
        | inl bad ↦
            rw (append, absent, hashed, bad)
              (log, unencrypted p w new same bad, count-Implements m log i)
        | inr (x, e) ↦
            rw (append, absent, hashed, e)
              (
                extend r.org_id p log,
                committed p new same back valid,
                stored-Implements m log r.org_id x p i (decrypt-encrypt enc law p w x e) back valid
                    (linked-seq now (suc m.seq) last hash r),
              )
      ]

  -- With a lawful encryptor, a submission is a step of the specification: a record that the
  -- organisation already has is answered without effect, and any other is either refused, because
  -- it could not be hashed or encrypted, or appended at the end of the organisation's list, in
  -- plaintext as submitted and linked to the record before it. Other organisations keep their list.
  pub append-Simulates :
      IsLawful enc
      → (now : Time) (r : Record) (m : MemStore) (w : W) (log : SpecLog) → Implements m log
      → Simulates log r (append enc digest now r (m, w))
  unfolding append Simulates
  append-Simulates law now r m w log i =
      let (read, chain, rising) = i r.org_id in
      elim (find-decrypt_all enc r.decision_id (log_of r.org_id m) read) [
        | inr (x, p, found, plain, e) ↦ rw (append, found) (log, repeated plain, i)
        | inl (absent, new) ↦
            let prev = last_hash-decrypt_all enc genesis_prev (log_of r.org_id m) read in
            elim (Option-cases
              (compute_record_hash digest (last_hash genesis_prev (log_of r.org_id m)) r)) [
                | inl bad ↦ rw (append, absent, bad) (log, unhashed new (rw prev bad), i)
                | inr (hash, hashed) ↦
                    fresh-Simulates law now r m w log hash i absent new prev hashed
              ]
      ]

  -- A history of submissions, each with its time.
  unfoldable pub append_each : List (Time × Record) → MemStore × W → MemStore × W
  append_each [] s = s
  append_each ((now, r) ∷ calls) s = append_each calls (append enc digest now r s).1

  -- The logs that the specification can reach.
  pub data Reaches : SpecLog → List (Time × Record) → SpecLog → Type 0 where
    done : {log : SpecLog} → Reaches log [] log
    next :
        {now : Time} {r : Record} {answer : Option Record} {log mid end : SpecLog}
        {calls : List (Time × Record)}
        → Accepts log r answer mid
        → Reaches mid calls end
        → Reaches log ((now, r) ∷ calls) end

  -- With an encryptor that decrypts whatever it encrypts to the same text, a history of
  -- submissions to a store that implements a log is a run of the specification from that log, and
  -- the store after it implements the log at the end of the run.
  pub append_each-Reaches :
      IsLawful enc
      → (calls : List (Time × Record)) (m : MemStore) (w : W) (log : SpecLog) → Implements m log
      → (end : SpecLog) × Reaches log calls end × Implements (append_each calls (m, w)).0 end
  unfolding append_each Simulates
  append_each-Reaches law [] m w log i = (log, done, i)
  append_each-Reaches law ((now, r) ∷ calls) m w log i =
      let (mid, step, j) = append-Simulates law now r m w log i in
      let after = (append enc digest now r (m, w)).1 in
      let (end, steps, k) = append_each-Reaches law calls after.0 after.1 mid j in
      (end, next step steps, k)

  pub empty-Implements : Implements empty_log (λ o. [])
  unfolding decrypt_all lookup
  empty-Implements o = (refl, tt, omega arith)
