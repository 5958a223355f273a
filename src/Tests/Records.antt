-- ===== src/Tests/Records.antt =====
-- The audit log.
use borges_labs.Base.{
  ℕ, ◌+◌, ◌≡◌, refl, pos, Option, none, some, false, List, [], ◌∷◌, ◌++◌, map, Str, str, arith,
  here, there, Has, str_eq, sym, ◌∙◌, if◌then◌else◌,
}
use borges_labs.Contracts.{verdict_approve, plain}
use borges_labs.Evaluation.{no_signature}
use borges_labs.Clock.{Time}
use borges_labs.Audit.{Record, HashView, hash_view, compute_record_hash, verify_chain_link, Filter}
use borges_labs.Audit.Store.{MemStore, empty_log, last_hash}
use borges_labs.Audit.Chain.{IsLawful, view_of, hashed, chain_commits}
use borges_labs.Audit.Crypto.{
  Primitives, IsSound, aes_gcm, aes_encrypt, aes_decrypt, aes_gcm-IsLawful, cipher_prefix,
}
use borges_labs.Audit.Refined.{
  SpecLog, Implements, Reaches, append_each, append_each-Reaches, empty-Implements,
}
use borges_labs.Audit.Queue.{
  Event, enqueued, worked, closed_down, enqueue, work, persist, step, run, flush, accepted,
  append_all, close, note, count, run-flush, flush-count,
}
use borges_labs.Tests.Data.{org, acme, noon, noon_text}

abbrev paid : Record
paid = record {
  seq = 0;
  decision_id = str "d1";
  org_id = org;
  api_key_id = str "key1";
  agent_id = str "agent7";
  action = str "pay";
  amount = str "40.00";
  currency = str "USD";
  target_type = str "vendor";
  target_id = acme;
  jurisdiction = [];
  verdict = verdict_approve;
  policy_version_hash = str "v1";
  explanation = record { summary = plain "ok"; matched_rules = [] };
  obligations = [];
  signature = no_signature;
  latency_ms = 3;
  evaluated_at = noon_text;
  shadow = false;
  prev_hash = [];
  record_hash = [];
  retain_until = 0;
  created_at = 0;
}

abbrev paid_again : Record
paid_again = record paid { decision_id = str "d2" }

-- A digest that tells decisions apart.
abbrev digest : HashView → Option Str
digest v = some v.decision_id

abbrev unseal : Str → Option Str
unseal [] = none
unseal (c ∷ s) = some s

-- Base64 and AES stand for themselves; a nonce is two bytes.
abbrev prims : Primitives ℕ
prims = record {
  nonce_size = 2;
  read_random = λ n w. (some (w ∷ w ∷ []), w + 1);
  seal = λ nonce s. 7 ∷ s;
  open_sealed = λ nonce s. unseal s;
  encode = λ s. s;
  decode = λ s. some s;
}

prims-IsSound : IsSound prims
prims-IsSound = record {
  opens = λ nonce s. refl;
  decodes = λ s. refl;
  sized = λ w nonce e. ground arith;
}

lawful : IsLawful (aes_gcm prims)
lawful = aes_gcm-IsLawful prims prims-IsSound

aes_gcm-IsLawful_example :
    aes_decrypt prims (cipher_prefix ++ 5 ∷ 5 ∷ 7 ∷ str "40.00") ≡ some (str "40.00")
unfolding aes_encrypt
aes_gcm-IsLawful_example =
    aes_gcm-IsLawful prims prims-IsSound (str "40.00") 5 (cipher_prefix ++ 5 ∷ 5 ∷ 7 ∷ str "40.00")
      refl

abbrev calls : List (Time × Record)
calls = (noon, paid) ∷ (noon, paid_again) ∷ (noon, paid) ∷ []

append_each-Reaches_example :
    (log : SpecLog) × Reaches (aes_gcm prims) digest (λ o. []) calls log
    × Implements
        (aes_gcm prims)
        digest
        (append_each (aes_gcm prims) digest calls (empty_log, 5)).0
        log
append_each-Reaches_example =
    append_each-Reaches (aes_gcm prims) digest lawful calls empty_log 5 (λ o. [])
      (empty-Implements (aes_gcm prims) digest)

abbrev first_record : Record
first_record = record paid {
  seq = 1;
  prev_hash = str "rh_genesis/1";
  record_hash = str "rh_d1";
  created_at = noon;
}

abbrev second_record : Record
second_record = record paid_again {
  seq = 2;
  prev_hash = str "rh_d1";
  record_hash = str "rh_d2";
  created_at = noon;
}

abbrev two_records : MemStore
two_records = record { seq = 2; by_org = (org, first_record ∷ second_record ∷ []) ∷ [] }

abbrev two_log : SpecLog
two_log o = if str_eq org o then first_record ∷ second_record ∷ [] else []

abbrev one_by_one : Filter
one_by_one = record {
  agent_id = str "agent7";
  verdict = some verdict_approve;
  from = 0;
  to = 0;
  limit = pos 1;
  cursor = pos 0;
}

only_view : {v w : HashView} → Has v (w ∷ []) → v ≡ w
only_view here = refl
only_view (there m) = elim m [ ]

one_view :
    (v w : HashView) (h : Str)
    → Has v (map view_of (first_record ∷ []))
    → Has w (map view_of (record first_record { seq = 9 } ∷ []))
    → digest v ≡ some h
    → digest w ≡ some h
    → v ≡ w
unfolding hash_view
one_view v w h m k d e = only_view m ∙ sym (only_view k)

chain_commits_example :
    (str "rh_genesis/1" ≡ str "rh_genesis/1")
    × (map hashed (first_record ∷ []) ≡ map hashed (record first_record { seq = 9 } ∷ []))
unfolding verify_chain_link compute_record_hash hash_view last_hash str_eq
chain_commits_example =
    chain_commits digest (str "rh_genesis/1") (str "rh_genesis/1") (first_record ∷ [])
      (record first_record { seq = 9 } ∷ []) (refl, refl, tt) (refl, refl, tt) refl refl one_view

abbrev poisoned : Record
poisoned = record first_record { target_id = str "enc:v1:x" }

abbrev turns : List Event
turns = enqueued paid ∷ worked ∷ enqueued paid_again ∷ enqueued paid ∷ []

run-flush_example :
    ((flush note 1 (run note 1 turns (record { queue = []; closed = false; store = [] }))).store
      ≡ paid ∷ paid_again ∷ [])
    × ((flush note 1 (run note 1 turns (record { queue = []; closed = false; store = [] }))).queue
        ≡ [])
unfolding run step enqueue work persist accepted append_all
run-flush_example = run-flush note 1 turns [] tt

flush-count_example :
    count
      (λ r. r.shadow)
      (flush note 1 (
        run note 1
          (enqueued paid ∷ closed_down ∷ enqueued paid_again ∷ [])
          (record { queue = []; closed = false; store = [] }))).store
    ≡ 0
unfolding run step enqueue work persist accepted close
flush-count_example =
    flush-count 1 (λ r. r.shadow) (enqueued paid ∷ closed_down ∷ enqueued paid_again ∷ [])
