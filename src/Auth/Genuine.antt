-- ===== src/Auth/Genuine.antt =====
-- Which requests are authenticated.
use borges_labs.Base.{
  ◌≤◌, ◌≡◌, ◌↔◌, ◌⊎◌, refl, sym, ap, ◌∙◌, inl, inr, ℤ, pos, ltb_ℤ, true, false, none, some, [], ◌∷◌,
  Str, str, arith, length, is_empty, str_eq, str_eq_iff, Option-cases, Bool-cases,
}
use borges_labs.Clock.{Time}
use borges_labs.Skew.{parse_int, skew_of}
use borges_labs.Auth.{
  Request, Platform, KeyRecord, Principal, Error, Checked, passed, refused, Found, found, not_found,
  failed, KeyStore, NonceStore, Config, canonical_string, bearer_key, parse_key, verify_signature,
  check_mac, check_skew, check_record, check_hashes, check_status, accepted, principal_of,
  answer_of, authenticate_record, authenticate_found, authenticate,
}

pub Checked-cases :
    {A : Type 0} (c : Checked A) → ((e : Error) × (c ≡ refused e)) ⊎ ((a : A) × (c ≡ passed a))
Checked-cases (refused e) = inl (e, refl)
Checked-cases (passed a) = inr (a, refl)

pub Found-cases :
    (f : Found) → ((f ≡ not_found) ⊎ (f ≡ failed)) ⊎ ((rec : KeyRecord) × (f ≡ found rec))
Found-cases not_found = inl (inl refl)
Found-cases failed = inl (inr refl)
Found-cases (found rec) = inr (rec, refl)

parse_int_empty : (s : Str) → (is_empty s ≡ false) ⊎ (parse_int s ≡ none)
unfolding parse_int
parse_int_empty [] = inr refl
parse_int_empty (c ∷ s) = inl refl

length_empty : (s : Str) → (is_empty s ≡ false) ⊎ (length s ≡ 0)
length_empty [] = inr refl
length_empty (c ∷ s) = inl refl

module _ (platform : Platform) where
  -- The key of a record is the one presented, and it is active.
  abbrev pub IsLive : KeyRecord → Str → Type 0
  IsLive rec hash_hex =
      (rec.status ≡ str "active")
      × (hash : Str) × (platform.hex_decode rec.key_hash_hex ≡ some hash)
      × (platform.hex_decode hash_hex ≡ some hash)

  check_status_iff :
      (rec : KeyRecord) → (check_status platform rec ≡ none) ↔ (rec.status ≡ str "active")
  unfolding check_status
  check_status_iff rec = elim (Bool-cases (str_eq rec.status (str "revoked"))) [
    | inl off ↦ let it = (str_eq_iff rec.status (str "revoked")).0 off in ground (arith, it)
    | inr on ↦ ground (arith, str_eq_iff rec.status (str "active"))
  ]

  check_record_iff :
      (rec : KeyRecord) (hash_hex : Str)
      → (check_record platform rec hash_hex ≡ none) ↔ IsLive rec hash_hex
  unfolding check_record check_hashes
  check_record_iff rec hash_hex = elim (Option-cases (platform.hex_decode rec.key_hash_hex)) [
    | inl bad ↦ ground arith
    | inr (stored, e) ↦ elim (Option-cases (platform.hex_decode hash_hex)) [
      | inl bad ↦ ground arith
      | inr (presented, p) ↦ ground (arith, str_eq_iff stored presented, check_status_iff rec)
    ]
  ]

  -- The timestamp is within the allowed skew, and the MAC is that of the request under the key.
  abbrev pub IsSigned : Config → Time → Request → Str → Type 0
  IsSigned cfg now req raw_key =
      let h = req.header in
      (8 ≤ length h.x_nonce)
      × (length h.x_nonce ≤ 128)
      × (is_empty h.x_signature ≡ false)
      × ((secs : ℤ) × (parse_int h.x_timestamp ≡ some secs)
          × (ltb_ℤ (pos cfg.max_skew) (skew_of now secs) ≡ false))
      × (platform.hex_decode h.x_signature
          ≡ some (
              platform.hmac_sha256 raw_key
                (canonical_string platform req.method req.path h.x_timestamp h.x_nonce req.body)))

  module _ (cfg : Config) (now : Time) (req : Request) (raw_key : Str) where
    abbrev expected : Str
    expected = platform.hmac_sha256 raw_key (
        canonical_string platform req.method req.path req.header.x_timestamp req.header.x_nonce
          req.body)

    verify_read :
        (secs : ℤ) (presented : Str)
        → parse_int req.header.x_timestamp ≡ some secs
        → platform.hex_decode req.header.x_signature ≡ some presented
        → (verify_signature platform cfg now req raw_key ≡ none) ↔ (
            (8 ≤ length req.header.x_nonce)
            × (length req.header.x_nonce ≤ 128)
            × (is_empty req.header.x_signature ≡ false)
            × (ltb_ℤ (pos cfg.max_skew) (skew_of now secs) ≡ false)
            × (expected ≡ presented))
    unfolding verify_signature check_mac check_skew
    verify_read secs presented e p = ground (
      arith,
      parse_int_empty req.header.x_timestamp,
      length_empty req.header.x_nonce,
      str_eq_iff expected presented,
    )

    verify-reads :
        verify_signature platform cfg now req raw_key ≡ none
        → (secs : ℤ) × (presented : Str) × (parse_int req.header.x_timestamp ≡ some secs)
          × (platform.hex_decode req.header.x_signature ≡ some presented)
    unfolding verify_signature check_mac check_skew
    verify-reads e = elim (Option-cases (parse_int req.header.x_timestamp)) [
      | inl bad ↦ absurd (ground arith)
      | inr (secs, read) ↦ elim (Option-cases (platform.hex_decode req.header.x_signature)) [
        | inl bad ↦ absurd (ground arith)
        | inr (presented, decoded) ↦ (secs, presented, read, decoded)
      ]
    ]

    verify_signature_iff :
        (verify_signature platform cfg now req raw_key ≡ none) ↔ IsSigned cfg now req raw_key
    verify_signature_iff = (
      λ e.
          (let (secs, presented, read, decoded) = verify-reads e in
            let (low, high, here, near, mac) = (verify_read secs presented read decoded).0 e in
            (low, high, here, (secs, read, near), decoded ∙ ap some (sym mac))),
      λ s.
          (let (secs, read, near) = s.3 in
            (verify_read secs expected read s.4).1 (s.0, s.1, s.2, near, refl)),
    )

module _ {K N : Type 0} (platform : Platform) (keys : KeyStore K) (nonces : NonceStore N)
    (cfg : Config) where
  -- The request carries a key that the store has as live, is signed with it, and has a fresh
  -- nonce; the principal is that of the key's record.
  pub record IsGenuine (now : Time) (req : Request) (k : K) (n : N) (p : Principal) : Type 0 where
    pub raw_key : Str
    pub key_id : Str
    pub hash_hex : Str
    pub rec : KeyRecord
    pub carried : bearer_key platform req.header ≡ passed raw_key
    pub well_formed : parse_key platform raw_key ≡ passed (key_id, hash_hex)
    pub known : (keys.lookup_by_id key_id k).0 ≡ found rec
    pub live : IsLive platform rec hash_hex
    pub signed : IsSigned platform cfg now req raw_key
    pub fresh : (nonces.remember now rec.key_id req.header.x_nonce cfg.nonce_ttl n).0 ≡ some true
    pub caller : p ≡ principal_of rec

  authenticate_all :
      (now : Time) (req : Request) (k : K) (n : N) {raw_key key_id hash_hex : Str} {rec : KeyRecord}
      → bearer_key platform req.header ≡ passed raw_key
      → parse_key platform raw_key ≡ passed (key_id, hash_hex)
      → (keys.lookup_by_id key_id k).0 ≡ found rec
      → check_record platform rec hash_hex ≡ none
      → verify_signature platform cfg now req raw_key ≡ none
      → (nonces.remember now rec.key_id req.header.x_nonce cfg.nonce_ttl n).0 ≡ some true
      → ((authenticate platform keys nonces cfg now req (k, n)).0 ≡ accepted (principal_of rec))
        × ((authenticate platform keys nonces cfg now req (k, n)).1.1
            ≡ (nonces.remember now rec.key_id req.header.x_nonce cfg.nonce_ttl n).1)
  unfolding authenticate authenticate_found authenticate_record answer_of
  authenticate_all now req k n a b c d e f =
      rw (authenticate, a, b, c, authenticate_record, d, e, f) (refl, refl)

  accepted_record :
      (now : Time) (req : Request) (raw_key hash_hex : Str) (rec : KeyRecord) (k : K) (n : N)
      (p : Principal)
      → (authenticate_record platform keys nonces cfg now req raw_key hash_hex rec (k, n)).0
        ≡ accepted p
      → (check_record platform rec hash_hex ≡ none)
        × (verify_signature platform cfg now req raw_key ≡ none)
        × ((nonces.remember now rec.key_id req.header.x_nonce cfg.nonce_ttl n).0 ≡ some true)
        × (p ≡ principal_of rec)
  unfolding authenticate_record answer_of
  accepted_record now req raw_key hash_hex rec k n p e =
      elim (Option-cases (check_record platform rec hash_hex)) [
        | inr (x, bad) ↦ absurd (ground arith)
        | inl live ↦ elim (Option-cases (verify_signature platform cfg now req raw_key)) [
          | inr (x, bad) ↦ absurd (ground arith)
          | inl signed ↦
              elim (Option-cases
                (nonces.remember now rec.key_id req.header.x_nonce cfg.nonce_ttl n).0) [
                  | inl bad ↦ absurd (ground arith)
                  | inr (false, bad) ↦ absurd (ground arith)
                  | inr (true, fresh) ↦ (live, signed, fresh, ground arith)
                ]
        ]
      ]

  authenticate-IsGenuine :
      (now : Time) (req : Request) (k : K) (n : N) (p : Principal)
      → (authenticate platform keys nonces cfg now req (k, n)).0 ≡ accepted p
      → IsGenuine now req k n p
  unfolding authenticate authenticate_found
  authenticate-IsGenuine now req k n p e = elim (Checked-cases (bearer_key platform req.header)) [
    | inl (x, bad) ↦ absurd (ground arith)
    | inr (raw_key, carried) ↦ elim (Checked-cases (parse_key platform raw_key)) [
      | inl (x, bad) ↦ absurd (ground arith)
      | inr ((key_id, hash_hex), formed) ↦ elim (Found-cases (keys.lookup_by_id key_id k).0) [
        | inl (inl bad) ↦ absurd (ground arith)
        | inl (inr bad) ↦ absurd (ground arith)
        | inr (rec, known) ↦
            let (live, signed, fresh, caller) =
              accepted_record now req raw_key hash_hex rec (keys.lookup_by_id key_id k).1 n p
                (ground arith) in
            record {
              raw_key = raw_key;
              key_id = key_id;
              hash_hex = hash_hex;
              rec = rec;
              carried = carried;
              well_formed = formed;
              known = known;
              live = (check_record_iff platform rec hash_hex).0 live;
              signed = (verify_signature_iff platform cfg now req raw_key).0 signed;
              fresh = fresh;
              caller = caller;
            }
      ]
    ]
  ]

  -- A request is authenticated as a principal exactly when it carries a key that the store has,
  -- active and with the hash of the key presented, its timestamp passes the check of the skew,
  -- its MAC is that of method, path, timestamp, nonce and body under the key, and its nonce, of
  -- 8 to 128 bytes, is fresh; the principal is that of the key's record.
  pub authenticate_iff :
      (now : Time) (req : Request) (k : K) (n : N) (p : Principal)
      → ((authenticate platform keys nonces cfg now req (k, n)).0 ≡ accepted p)
        ↔ IsGenuine now req k n p
  authenticate_iff now req k n p = (
    authenticate-IsGenuine now req k n p,
    λ g.
        ((authenticate_all now req k n g.carried g.well_formed g.known
            ((check_record_iff platform g.rec g.hash_hex).1 g.live)
            ((verify_signature_iff platform cfg now req g.raw_key).1 g.signed) g.fresh).0
          ∙ ap accepted (sym g.caller)),
  )

  -- What an authenticated request does to the nonces.
  pub IsGenuine-nonces :
      (now : Time) (req : Request) (k : K) (n : N) (p : Principal) (g : IsGenuine now req k n p)
      → (authenticate platform keys nonces cfg now req (k, n)).1.1
        ≡ (nonces.remember now g.rec.key_id req.header.x_nonce cfg.nonce_ttl n).1
  IsGenuine-nonces now req k n p g =
      (authenticate_all now req k n g.carried g.well_formed g.known
        ((check_record_iff platform g.rec g.hash_hex).1 g.live)
        ((verify_signature_iff platform cfg now req g.raw_key).1 g.signed) g.fresh).1
