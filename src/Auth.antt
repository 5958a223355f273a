-- ===== src/Auth.antt =====
-- Authentication of requests (services/authorize-svc/internal/auth/auth.go): the API key, the HMAC
-- signature and the nonce. Header values are read by `Header`, an absent one as the empty string.
-- SHA-256, HMAC, hex and the functions of package strings on any text are fields of `Platform`;
-- the comparisons in constant time compare. Durations of the configuration are not negative.
pub mod Genuine
pub mod Replay
pub mod Canonical
pub mod Keys
use Prim.Native.String.{String}
use borges_labs.Base.{
  ℕ, ◌+◌, ◌-◌, ◌*◌, ℤ, pos, ltb_ℤ, Bool, true, false, not, ◌&&◌, ◌||◌, Option, none, some, [], ◌∷◌,
  ◌++◌, Str, str, str_eq, is_empty, has_prefix, length, ltb, ◌==◌, if◌then◌else◌,
}
use borges_labs.Clock.{Time}
use borges_labs.Skew.{parse_int, skew_of}

pub record Header : Type 0 where
  pub authorization : Str
  pub x_api_key : Str
  pub x_timestamp : Str
  pub x_nonce : Str
  pub x_signature : Str

pub record Request : Type 0 where
  pub method : Str
  pub path : Str
  pub header : Header
  pub body : Str

pub record Platform : Type 0 where
  pub sha256 : Str → Str
  pub hmac_sha256 : Str → Str → Str
  pub hex_encode : Str → Str
  pub hex_decode : Str → Option Str
  pub to_upper : Str → Str
  pub trim_space : Str → Str
  pub equal_fold : Str → Str → Bool

pub record KeyRecord : Type 0 where
  pub key_id : Str
  pub key_hash_hex : Str
  pub org_id : Str
  pub tier : Str
  pub env : Str
  pub status : Str
  pub shadow : Bool

pub record Principal : Type 0 where
  pub org_id : Str
  pub key_id : Str
  pub tier : Str
  pub env : Str
  pub shadow : Bool

pub record Error : Type 0 where
  pub status : ℕ
  pub code : String
  pub title : String
  pub detail : String

abbrev pub err_unauthorized : String → Error
err_unauthorized detail = record {
  status = 401;
  code = "unauthorized";
  title = "Unauthorized";
  detail = detail;
}

abbrev pub err_forbidden : String → Error
err_forbidden detail = record {
  status = 403;
  code = "forbidden";
  title = "Forbidden";
  detail = detail;
}

abbrev pub err_replay : Error
err_replay = record {
  status = 401;
  code = "replay_detected";
  title = "Unauthorized";
  detail = "Request nonce has already been used.";
}

abbrev pub err_unavailable : Error
err_unavailable = record {
  status = 503;
  code = "auth_unavailable";
  title = "Authentication unavailable";
  detail = "Could not verify the request. Please retry.";
}

pub data Checked (A : Type 0) : Type 0 where
  passed : A → Checked A
  refused : Error → Checked A

-- What a lookup answers: the record, `ErrKeyNotFound`, or another error.
pub data Found : Type 0 where
  found : KeyRecord → Found
  not_found failed : Found

pub record KeyStore (K : Type 0) : Type 0 where
  pub lookup_by_id : Str → K → Found × K

-- `Remember` at a time: whether the nonce is fresh, or an error.
pub record NonceStore (N : Type 0) : Type 0 where
  pub remember : Time → Str → Str → ℕ → N → Option Bool × N

pub record Config : Type 0 where
  pub max_skew : ℕ
  pub nonce_ttl : ℕ

-- `New`: the configuration that the authenticator keeps.
unfoldable pub new : Config → Config
new cfg =
    if ltb cfg.nonce_ttl (2 * cfg.max_skew)
    then record cfg { nonce_ttl = 2 * cfg.max_skew }
    else cfg

abbrev pub prefix_live : Str
prefix_live = str "azn_live_"

abbrev pub prefix_test : Str
prefix_test = str "azn_test_"

-- `s[:n]` of a string that is long enough
unfoldable pub first : ℕ → Str → Str
first n [] = []
first n (c ∷ s) = let rest = first (n - 1) s in if n == 0 then [] else c ∷ rest

-- `s[n:]`
unfoldable pub skip : ℕ → Str → Str
skip n [] = []
skip n (c ∷ s) = let rest = skip (n - 1) s in if n == 0 then c ∷ s else rest

-- `KeyID`
unfoldable pub key_id_of : Str → Str → Str
key_id_of raw_key hash_hex =
    (if has_prefix raw_key prefix_test then prefix_test else prefix_live) ++ first 16 hash_hex

module _ (platform : Platform) where
  -- `canonicalString`
  unfoldable pub canonical_string : Str → Str → Str → Str → Str → Str
  canonical_string method path timestamp nonce body =
      let body_hash = platform.hex_encode (platform.sha256 body) in
      str "azn-hmac/1"
      ++ 10
        ∷ (platform.to_upper method
            ++ 10 ∷ (path ++ 10 ∷ (timestamp ++ 10 ∷ (nonce ++ 10 ∷ body_hash))))

  -- `Sign`
  unfoldable pub sign : Str → Str → Str → Str → Str → Str → Str
  sign raw_key method path timestamp nonce body =
      platform.hex_encode
        (platform.hmac_sha256 raw_key (canonical_string method path timestamp nonce body))

  -- `bearerKey`
  unfoldable pub bearer_key : Header → Checked Str
  bearer_key h =
      if not (is_empty h.authorization)
      then if ltb 7 (length h.authorization)
          && platform.equal_fold (first 7 h.authorization) (str "Bearer ")
        then passed (platform.trim_space (skip 7 h.authorization))
        else refused (err_unauthorized "Authorization header must be 'Bearer <api_key>'.")
      else if not (is_empty h.x_api_key)
      then passed (platform.trim_space h.x_api_key)
      else refused (err_unauthorized "Missing API key.")

  -- `parseKey`: the key id and the hash.
  unfoldable pub parse_key : Str → Checked (Str × Str)
  parse_key raw_key =
      let hash_hex = platform.hex_encode (platform.sha256 raw_key) in
      if not (has_prefix raw_key prefix_live) && not (has_prefix raw_key prefix_test)
      then refused (err_unauthorized "Invalid API key.")
      else passed (key_id_of raw_key hash_hex, hash_hex)

  check_mac : Str → Str → Option Str → Option Error
  check_mac raw_key canonical none = some (err_unauthorized "X-Signature must be lowercase hex.")
  check_mac raw_key canonical (some presented) =
      if str_eq (platform.hmac_sha256 raw_key canonical) presented
      then none
      else some (err_unauthorized "Request signature is invalid.")

  check_skew : Config → Time → Option ℤ → Option Error → Option Error
  check_skew cfg now none rest = some (err_unauthorized "X-Timestamp must be Unix seconds.")
  check_skew cfg now (some secs) rest =
      if ltb_ℤ (pos cfg.max_skew) (skew_of now secs)
      then some (err_unauthorized "Request timestamp is outside the allowed skew window.")
      else rest

  -- `verifySignature`; the first error, if there is one.
  unfoldable pub verify_signature : Config → Time → Request → Str → Option Error
  unfolding check_mac check_skew
  verify_signature cfg now req raw_key =
      let h = req.header in
      let canonical = canonical_string req.method req.path h.x_timestamp h.x_nonce req.body in
      if is_empty h.x_timestamp || (is_empty h.x_nonce || is_empty h.x_signature)
      then some (err_unauthorized "Missing X-Timestamp, X-Nonce, or X-Signature header.")
      else if ltb (length h.x_nonce) 8 || ltb 128 (length h.x_nonce)
      then some (err_unauthorized "X-Nonce must be 8..128 characters.")
      else check_skew cfg now (parse_int h.x_timestamp)
          (check_mac raw_key canonical (platform.hex_decode h.x_signature))

  check_status : KeyRecord → Option Error
  check_status rec =
      if str_eq rec.status (str "revoked")
      then some (err_forbidden "This API key has been revoked.")
      else if not (str_eq rec.status (str "active"))
      then some (err_forbidden "This API key is not active.")
      else none

  check_hashes : KeyRecord → Option Str → Option Str → Option Error
  check_hashes rec none presented = some err_unavailable
  check_hashes rec (some stored) none = some (err_unauthorized "Invalid API key.")
  check_hashes rec (some stored) (some presented) =
      if str_eq stored presented
      then check_status rec
      else some (err_unauthorized "Invalid API key.")

  -- The checks of `Authenticate` on the record of a key: its hash and its status.
  unfoldable pub check_record : KeyRecord → Str → Option Error
  unfolding check_status check_hashes
  check_record rec hash_hex =
      check_hashes rec (platform.hex_decode rec.key_hash_hex) (platform.hex_decode hash_hex)

pub data Answer : Type 0 where
  accepted : Principal → Answer
  denied : Error → Answer

abbrev pub principal_of : KeyRecord → Principal
principal_of rec = record {
  org_id = rec.org_id;
  key_id = rec.key_id;
  tier = rec.tier;
  env = rec.env;
  shadow = rec.shadow;
}

module _ {K N : Type 0} (platform : Platform) (keys : KeyStore K) (nonces : NonceStore N)
    (cfg : Config) where
  answer_of : KeyRecord → Option Bool → Answer
  answer_of rec none = denied err_unavailable
  answer_of rec (some false) = denied err_replay
  answer_of rec (some true) = accepted (principal_of rec)

  -- `Authenticate`, once the record of the key is found.
  unfoldable pub authenticate_record :
      Time → Request → Str → Str → KeyRecord → K × N → Answer × (K × N)
  unfolding answer_of
  authenticate_record now req raw_key hash_hex rec (k, n) =
      elim (check_record platform rec hash_hex) [
        | some e ↦ (denied e, (k, n))
        | none ↦ elim (verify_signature platform cfg now req raw_key) [
          | some e ↦ (denied e, (k, n))
          | none ↦
              let step = nonces.remember now rec.key_id req.header.x_nonce cfg.nonce_ttl n in
              (answer_of rec step.0, (k, step.1))
        ]
      ]

  authenticate_found : Time → Request → Str → Str → Found → K × N → Answer × (K × N)
  authenticate_found now req raw_key hash_hex not_found s =
      (denied (err_unauthorized "Invalid API key."), s)
  authenticate_found now req raw_key hash_hex failed s = (denied err_unavailable, s)
  authenticate_found now req raw_key hash_hex (found rec) s =
      authenticate_record now req raw_key hash_hex rec s

  -- `Authenticate`
  unfoldable pub authenticate : Time → Request → K × N → Answer × (K × N)
  unfolding authenticate_found
  authenticate now req (k, n) = elim (bearer_key platform req.header) [
    | refused e ↦ (denied e, (k, n))
    | passed raw_key ↦ elim (parse_key platform raw_key) [
      | refused e ↦ (denied e, (k, n))
      | passed (key_id, hash_hex) ↦
          let step = keys.lookup_by_id key_id k in
          authenticate_found now req raw_key hash_hex step.0 (step.1, n)
    ]
  ]
