-- ===== src/Auth/Keys.antt =====
-- API keys: the store in memory with its administration (services/authorize-svc/internal/auth/
-- memory.go, admin.go), the cache in front of a store (redis.go, CachedKeyStore), and new keys
-- (auth.go, NewKey). A method under the store's mutex is one step.
use borges_labs.Base.{
  ℤ, pos, ltb_ℤ, ◌≤◌, length, is_empty, has_prefix_self, ◌≡◌, refl, sym, ap, ◌∙◌, inl, inr, Bool,
  true, false, not, Option, none, some, List, [], ◌&&◌, ◌∷◌, ◌++◌, Str, str, arith, Dict, lookup,
  insert, lookup-insert_self, str_eq, str_eq_iff, if◌then◌else◌, Option-cases, Bool-cases,
}
use borges_labs.Clock.{Time}
use borges_labs.Authoring.{sort_newest}
use borges_labs.Auth.Genuine.{authenticate_iff}
use borges_labs.Skew.{parse_int, skew_of}
use borges_labs.Auth.{
  Platform, Request, KeyRecord, Principal, Found, found, not_found, failed, KeyStore, NonceStore,
  Config, prefix_live, prefix_test, key_id_of, accepted, authenticate, parse_key, passed,
  bearer_key, principal_of, sign,
}

pub record KeyInfo : Type 0 where
  pub key_id : Str
  pub org_id : Str
  pub tier : Str
  pub env : Str
  pub status : Str
  pub shadow : Bool
  pub created_at : Time
  pub revoked_at : Option Time

-- `memInfo`; its zero value is what a missing entry reads as.
pub record MemInfo : Type 0 where
  pub created_at : Time
  pub revoked_at : Option Time

pub record MemKeys : Type 0 where
  pub keys : Dict KeyRecord
  pub info : Dict MemInfo

abbrev pub info_or_zero : Option MemInfo → MemInfo
info_or_zero none = record { created_at = 0; revoked_at = none }
info_or_zero (some i) = i

-- `NewMemKeyStore`
unfoldable pub new_mem_keys : Time → List KeyRecord → MemKeys → MemKeys
new_mem_keys now [] m = m
new_mem_keys now (r ∷ rs) m = new_mem_keys now rs (record {
  keys = insert r.key_id r m.keys;
  info = insert r.key_id (record { created_at = now; revoked_at = none }) m.info;
})

-- `Put`
unfoldable pub put : KeyRecord → MemKeys → MemKeys
put r m = record m { keys = insert r.key_id r m.keys }

-- `LookupByID`
unfoldable pub mem_lookup : Str → MemKeys → Found
mem_lookup key_id m = elim (lookup key_id m.keys) [ none ↦ not_found | some r ↦ found r ]

abbrev pub mem_keys : KeyStore MemKeys
mem_keys = record { lookup_by_id = λ key_id m. (mem_lookup key_id m, m) }

-- `infoOf`
unfoldable pub info_of : Str → KeyRecord → MemKeys → KeyInfo
info_of id rec m =
    let meta = info_or_zero (lookup id m.info) in
    record {
      key_id = rec.key_id;
      org_id = rec.org_id;
      tier = rec.tier;
      env = rec.env;
      status = rec.status;
      shadow = rec.shadow;
      created_at = meta.created_at;
      revoked_at = meta.revoked_at;
    }

-- `CreateKey`
unfoldable pub create_key : KeyRecord → Time → MemKeys → MemKeys
create_key rec created_at m = record {
  keys = insert rec.key_id rec m.keys;
  info = insert rec.key_id (record { created_at = created_at; revoked_at = none }) m.info;
}

-- The loop of `ListKeys`.
unfoldable pub infos_of : Str → Dict KeyRecord → MemKeys → List KeyInfo
infos_of org [] m = []
infos_of org ((id, rec) ∷ keys) m =
    let rest = infos_of org keys m in
    if str_eq rec.org_id org then info_of id rec m ∷ rest else rest

-- `ListKeys`
unfoldable pub list_keys : Str → MemKeys → List KeyInfo
list_keys org m = sort_newest (λ i. i.created_at) (infos_of org m.keys m)

abbrev revoked_record : KeyRecord → KeyRecord
revoked_record rec = record rec { status = str "revoked" }

revoke_found : Str → Str → Time → KeyRecord → MemKeys → Option KeyInfo × MemKeys
revoke_found org key_id at rec m =
    let meta = info_or_zero (lookup key_id m.info) in
    let after_it : MemKeys = record {
      keys = insert key_id (revoked_record rec) m.keys;
      info = insert key_id (record meta { revoked_at = some at }) m.info;
    } in
    if not (str_eq rec.org_id org)
    then (none, m)
    else (some (info_of key_id (revoked_record rec) after_it), after_it)

-- `RevokeKey`; `none` is `ErrKeyNotFound`.
unfoldable pub revoke_key : Str → Str → Time → MemKeys → Option KeyInfo × MemKeys
unfolding revoke_found
revoke_key org key_id at m = elim (lookup key_id m.keys) [
  | none ↦ (none, m)
  | some rec ↦ revoke_found org key_id at rec m
]

-- `KeyCache`: `Get` answers a hit, a miss or an error, `Set` whether it succeeded.
pub data Hit : Type 0 where
  hit : KeyRecord → Hit
  miss broken : Hit

pub record KeyCache (C : Type 0) : Type 0 where
  pub get : Str → C → Hit × C
  pub set : KeyRecord → C → Bool × C

module _ {C K : Type 0} (cache : KeyCache C) (source : KeyStore K) where
  cached_source : Found × K → C → Found × (C × K)
  cached_source (found rec, k) c = (found rec, ((cache.set rec c).1, k))
  cached_source (not_found, k) c = (not_found, (c, k))
  cached_source (failed, k) c = (failed, (c, k))

  cached_answer : Str → Hit × C → K → Found × (C × K)
  cached_answer key_id (hit rec, c) k = (found rec, (c, k))
  cached_answer key_id (broken, c) k = (failed, (c, k))
  cached_answer key_id (miss, c) k = cached_source (source.lookup_by_id key_id k) c

  -- `CachedKeyStore.LookupByID`
  unfoldable pub cached_lookup : Str → C × K → Found × (C × K)
  unfolding cached_answer cached_source
  cached_lookup key_id (c, k) = cached_answer key_id (cache.get key_id c) k

  abbrev pub cached_keys : KeyStore (C × K)
  cached_keys = record { lookup_by_id = cached_lookup }

-- `NewKey`, from the text of the 32 random bytes; `none` is its error.
unfoldable pub new_key : Platform → Str → Str → Str → Str → Option (Str × KeyRecord)
new_key platform secret env org_id tier =
    let prefix = if str_eq env (str "test") then prefix_test else prefix_live in
    let raw_key = prefix ++ secret in
    let hash_hex = platform.hex_encode (platform.sha256 raw_key) in
    if not (str_eq env (str "test")) && not (str_eq env (str "live"))
    then none
    else some (
      raw_key,
      record {
        key_id = key_id_of raw_key hash_hex;
        key_hash_hex = hash_hex;
        org_id = org_id;
        tier = tier;
        env = env;
        status = str "active";
        shadow = true;
      },
    )

module _ (org key_id : Str) (at : Time) (m : MemKeys) where
  revoke_key-some :
      {i : KeyInfo}
      → (revoke_key org key_id at m).0 ≡ some i
      → (rec : KeyRecord) × (lookup key_id m.keys ≡ some rec)
        × (rec.org_id ≡ org)
        × (lookup key_id (revoke_key org key_id at m).1.keys ≡ some (revoked_record rec))
  unfolding revoke_key revoke_found
  revoke_key-some e = elim (Option-cases (lookup key_id m.keys)) [
    | inl missing ↦ absurd (ground arith)
    | inr (rec, known) ↦ elim (Bool-cases (str_eq rec.org_id org)) [
      | inl own ↦ (
        rec,
        known,
        (str_eq_iff rec.org_id org).0 own,
        rw (revoke_key, known, own) (lookup-insert_self key_id (revoked_record rec) m.keys),
      )
      | inr foreign ↦ absurd (ground arith)
    ]
  ]

passed-inj : {A : Type 0} {a b : A} → passed a ≡ passed b → a ≡ b
passed-inj e = ground arith

found-inj : {r s : KeyRecord} → found r ≡ found s → r ≡ s
found-inj e = ground arith

not_revoked : {s : Str} → s ≡ str "revoked" → s ≡ str "active" → ⊥
not_revoked e f = cc

mem_lookup-found :
    (key_id : Str) (m : MemKeys) {r : KeyRecord}
    → lookup key_id m.keys ≡ some r
    → mem_lookup key_id m ≡ found r
unfolding mem_lookup
mem_lookup-found key_id m e = rw (mem_lookup, e) refl

module _ {N : Type 0} (platform : Platform) (nonces : NonceStore N) (cfg : Config) where
  -- Once the revocation of a key has succeeded, no request that presents a key with this id is
  -- authenticated by the store, whatever its signature.
  pub revoke_key-refused :
      (org key_id : Str) (at : Time) (m : MemKeys) {i : KeyInfo} (now : Time) (req : Request)
      (n : N) (raw_key hash_hex : Str) (p : Principal)
      → (revoke_key org key_id at m).0 ≡ some i
      → bearer_key platform req.header ≡ passed raw_key
      → parse_key platform raw_key ≡ passed (key_id, hash_hex)
      → ¬ (
          (authenticate platform mem_keys nonces cfg now req ((revoke_key org key_id at m).1, n)).0
          ≡ accepted p)
  unfolding mem_lookup
  revoke_key-refused org key_id at m now req n raw_key hash_hex p done carried formed e =
      let (rec, known, own, revoked) = revoke_key-some org key_id at m done in
      let g =
        (authenticate_iff platform mem_keys nonces cfg now req (revoke_key org key_id at m).1 n p).0
          e in
      let raw : g.raw_key ≡ raw_key = passed-inj (sym g.carried ∙ carried) in
      let ids : (g.key_id, g.hash_hex) ≡ (key_id, hash_hex) =
        passed-inj (sym g.well_formed ∙ ap (parse_key platform) raw ∙ formed) in
      let stored : found g.rec ≡ found (revoked_record rec) =
        sym g.known
        ∙ ap (λ i. mem_lookup i (revoke_key org key_id at m).1) (ap (λ x. x.0) ids)
        ∙ mem_lookup-found key_id (revoke_key org key_id at m).1 revoked in
      not_revoked (ap (λ r. r.status) (found-inj stored) ∙ refl) g.live.0

module _ (platform : Platform) (secret env org tier : Str) where
  new_key-parses :
      {raw_key : Str} {rec : KeyRecord}
      → new_key platform secret env org tier ≡ some (raw_key, rec)
      → (parse_key platform raw_key ≡ passed (rec.key_id, rec.key_hash_hex))
        × (rec.status ≡ str "active")
        × (rec.org_id ≡ org)
        × (rec.shadow ≡ true)
        × (rec.key_hash_hex ≡ platform.hex_encode (platform.sha256 raw_key))
  unfolding new_key parse_key
  new_key-parses e =
      ground (arith, has_prefix_self prefix_live secret, has_prefix_self prefix_test secret)

  -- A key that is minted and created is accepted with the first request that carries it and is
  -- signed with it, under a timestamp that passes the check of the skew and a fresh nonce of 8 to
  -- 128 bytes: the caller is of the key's organisation, in shadow. Hex decodes what it encodes.
  pub new_key-accepted :
      {N : Type 0} (nonces : NonceStore N) (cfg : Config) (raw_key : Str) (rec : KeyRecord)
      (created now : Time) (m : MemKeys) (req : Request) (n : N) (secs : ℤ)
      → new_key platform secret env org tier ≡ some (raw_key, rec)
      → ((s : Str) → platform.hex_decode (platform.hex_encode s) ≡ some s)
      → bearer_key platform req.header ≡ passed raw_key
      → req.header.x_signature
        ≡ sign platform raw_key req.method req.path req.header.x_timestamp req.header.x_nonce
            req.body
      → is_empty req.header.x_signature ≡ false
      → 8 ≤ length req.header.x_nonce
      → length req.header.x_nonce ≤ 128
      → parse_int req.header.x_timestamp ≡ some secs
      → ltb_ℤ (pos cfg.max_skew) (skew_of now secs) ≡ false
      → (nonces.remember now rec.key_id req.header.x_nonce cfg.nonce_ttl n).0 ≡ some true
      → ((authenticate platform mem_keys nonces cfg now req (create_key rec created m, n)).0
          ≡ accepted (principal_of rec))
        × (rec.org_id ≡ org)
        × (rec.shadow ≡ true)
  unfolding create_key sign
  new_key-accepted nonces cfg raw_key rec created now m req n secs made hex carried signed here low
        high read near fresh =
      let (formed, live, own, shadow, hash) = new_key-parses made in
      let decoded = ap platform.hex_decode hash ∙ hex (platform.sha256 raw_key) in
      (
        (authenticate_iff platform mem_keys nonces cfg now req (create_key rec created m) n
              (principal_of rec)).1
            (record {
              raw_key = raw_key;
              key_id = rec.key_id;
              hash_hex = rec.key_hash_hex;
              rec = rec;
              carried = carried;
              well_formed = formed;
              known =
                  mem_lookup-found rec.key_id (create_key rec created m)
                    (lookup-insert_self rec.key_id rec m.keys);
              live = (live, platform.sha256 raw_key, decoded, decoded);
              signed = (low, high, here, (secs, read, near), ap platform.hex_decode signed ∙ hex _);
              fresh = fresh;
              caller = refl;
            }),
        own,
        shadow,
      )
