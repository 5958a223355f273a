-- ===== src/Audit/Store.antt =====
-- The audit log in memory (services/authorize-svc/internal/audit/memory.go), whose mutex makes a
-- method one step. The clock is an argument; a value of the source of randomness is threaded
-- through the encryptor's calls. `Mutate`, which only tests call, is left out.
use borges_labs.Base.{
  ℕ, suc, ℤ, pos, negsuc, Bool, false, not, ◌&&◌, Option, none, some, List, [], ◌∷◌, ◌++◌, ◌-◌, Str,
  str_eq, ltb, leb, ◌==◌, if◌then◌else◌, Dict, lookup, insert,
}
use borges_labs.Authoring.{or_empty}
use borges_labs.Clock.{Time, Platform}
use borges_labs.Audit.{
  genesis_prev, Record, HashView, compute_record_hash, Encryptor, Filter, Page, clamp_limit,
  matches,
}

pub record MemStore : Type 0 where
  pub seq : ℕ
  pub by_org : Dict (List Record)

abbrev pub empty_log : MemStore
empty_log = record { seq = 0; by_org = [] }

-- `m.byOrg[org]`, where a missing key reads as nil.
abbrev pub log_of : Str → MemStore → List Record
log_of org m = or_empty (lookup org m.by_org)

-- What the loops over an organisation's records look for.
unfoldable pub find : Str → List Record → Option Record
find id [] = none
find id (r ∷ rs) = let rest = find id rs in if str_eq r.decision_id id then some r else rest

-- `tail[len(tail)-1].RecordHash`, or the start of a chain.
unfoldable pub last_hash : Str → List Record → Str
last_hash prev [] = prev
last_hash prev (r ∷ rs) = last_hash r.record_hash rs

unfoldable pub newest_insert : Record → List Record → List Record
newest_insert r [] = r ∷ []
newest_insert r (s ∷ ss) =
    let rest = newest_insert r ss in if ltb s.seq r.seq then r ∷ s ∷ ss else s ∷ rest

-- `sort.Slice` by descending `Seq`; the numbers of a store's records are distinct.
unfoldable pub newest_first : List Record → List Record
newest_first [] = []
newest_first (r ∷ rs) = newest_insert r (newest_first rs)

-- `f.Cursor > 0 && ex.Seq >= f.Cursor`
abbrev pub is_past : ℤ → ℕ → Bool
is_past (pos c) seq = ltb 0 c && leb c seq
is_past (negsuc c) seq = false

-- The record with its number and links, before it is encrypted.
unfoldable pub linked : Time → ℕ → Str → Str → Record → Record
linked now seq prev hash r = record r {
  seq = seq;
  prev_hash = prev;
  record_hash = hash;
  created_at = if r.created_at == 0 then now else r.created_at;
}

abbrev pub append_stored : Str → Record → Option Record → MemStore → Option Record × MemStore
append_stored org r none m = (none, m)
append_stored org r (some stored) m =
    (some r, record m { by_org = insert org (log_of org m ++ stored ∷ []) m.by_org })

module _ {W : Type 0} (enc : Encryptor W) where
  -- `encryptInto`
  unfoldable pub encrypt_into : Record → W → Option Record × W
  encrypt_into r w =
      let a = enc.encrypt r.amount w in
      let t = enc.encrypt r.target_type a.1 in
      let i = enc.encrypt r.target_id t.1 in
      elim a.0 [
        | none ↦ (none, a.1)
        | some amount ↦ elim t.0 [
          | none ↦ (none, t.1)
          | some target_type ↦ elim i.0 [
            | none ↦ (none, i.1)
            | some target_id ↦ (
              some (record r { amount = amount; target_type = target_type; target_id = target_id }),
              i.1,
            )
          ]
        ]
      ]

  -- `decryptInto`
  unfoldable pub decrypt_into : Record → Option Record
  decrypt_into r = elim (enc.decrypt r.amount) [
    | none ↦ none
    | some amount ↦ elim (enc.decrypt r.target_type) [
      | none ↦ none
      | some target_type ↦ elim (enc.decrypt r.target_id) [
        | none ↦ none
        | some target_id ↦
            some (record r { amount = amount; target_type = target_type; target_id = target_id })
      ]
    ]
  ]

  -- `MemStore.Append`: the caller's record after the call, or an error.
  unfoldable pub append :
      (HashView → Option Str) → Time → Record → MemStore × W → Option Record × (MemStore × W)
  append digest now r (m, w) = elim (find r.decision_id (log_of r.org_id m)) [
    | some ex ↦ (some r, (m, w))
    | none ↦
        let prev = last_hash genesis_prev (log_of r.org_id m) in
        elim (compute_record_hash digest prev r) [
          | none ↦ (none, (m, w))
          | some hash ↦
              let plain = linked now (suc m.seq) prev hash r in
              let step = encrypt_into plain w in
              let done =
                append_stored r.org_id plain step.0
                  (record { seq = suc m.seq; by_org = m.by_org }) in
              (done.0, (done.1, step.1))
        ]
  ]

  -- `MemStore.Get`; an absent record and one that cannot be decrypted are told apart.
  unfoldable pub get : Str → Str → MemStore → Option (Option Record)
  get org id m = elim (find id (log_of org m)) [
    | none ↦ some none
    | some ex ↦ elim (decrypt_into ex) [ none ↦ none | some out ↦ some (some out) ]
  ]

  abbrev pub add_record : Option Record → Option Page → Option Page
  add_record none rest = none
  add_record (some out) none = none
  add_record (some out) (some page) = some (record page { records = out ∷ page.records })

  -- The loop of `List`, from a place in the sorted records: `room` is what is left of the limit,
  -- and `last` the number of the page's last record so far.
  unfoldable pub fill : Platform → Filter → ℕ → ℕ → List Record → Option Page
  fill platform f room last [] = some (record { records = []; next_cursor = 0 })
  fill platform f room last (ex ∷ rest) =
      let skip = fill platform f room last rest in
      let next = fill platform f (room - 1) ex.seq rest in
      if is_past f.cursor ex.seq
      then skip
      else if not (matches platform ex f)
      then skip
      else if room == 0
      then some (record { records = []; next_cursor = last })
      else add_record (decrypt_into ex) next

  -- `MemStore.List`
  unfoldable pub list : Platform → Str → Filter → MemStore → Option Page
  list platform org f m = fill platform f (clamp_limit f.limit) 0 (newest_first (log_of org m))
