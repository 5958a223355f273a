-- ===== src/Tests/Access.antt =====
-- Authenticated requests and API keys.
use borges_labs.Base.{
  ℕ, ◌+◌, ◌≡◌, ◌↔◌, refl, pos, ltb_ℤ, some, true, false, [], ◌∷◌, Str, str, str_eq, arith, lookup,
  insert, has_prefix, wrap64, ◌+ℤ◌, ◌-ℤ◌, scale, sub64, ◌⊎◌, ◌≤◌, ◌<◌,
}
use borges_labs.Skew.{parse_int, parse_digits, time_unix, sub_time, skew_of}
use borges_labs.Skew.Within.{instant_of, skew_of_iff}
use borges_labs.Auth.{
  Request, Platform, KeyRecord, Config, canonical_string, sign, bearer_key, parse_key, key_id_of,
  first, skip, accepted, principal_of, authenticate,
}
use borges_labs.Auth.Genuine.{IsGenuine, authenticate_iff}
use borges_labs.Auth.Replay.{mem_remember, mem_nonces}
use borges_labs.Auth.Canonical.{canonical_string-injective}
use borges_labs.Auth.Keys.{
  MemKeys, KeyInfo, mem_keys, create_key, revoke_key, info_of, new_key, revoke_key-refused,
  new_key-accepted,
}
use borges_labs.Tests.Data.{org, noon}

-- Hashes and hex stand for themselves, and a MAC shows its key.
abbrev pub plain_platform : Platform
plain_platform = record {
  sha256 = λ s. s;
  hmac_sha256 = λ key msg. key;
  hex_encode = λ s. s;
  hex_decode = λ s. some s;
  to_upper = λ s. s;
  trim_space = λ s. s;
  equal_fold = str_eq;
}

abbrev raw_key : Str
raw_key = str "azn_test_secret1"

abbrev live_record : KeyRecord
live_record = record {
  key_id = str "azn_test_azn_test_secret1";
  key_hash_hex = raw_key;
  org_id = org;
  tier = str "free";
  env = str "test";
  status = str "active";
  shadow = true;
}

abbrev no_keys : MemKeys
no_keys = record { keys = []; info = [] }

abbrev pub one_key : MemKeys
one_key = record { keys = (live_record.key_id, live_record) ∷ []; info = [] }

-- Signed for noon.
abbrev pub signed_request : Request
signed_request = record {
  method = str "POST";
  path = str "/v1/authorize";
  header = record {
    authorization = str "Bearer azn_test_secret1";
    x_api_key = [];
    x_timestamp = str "1772366400";
    x_nonce = str "nonce-01";
    x_signature = raw_key;
  };
  body = str "{}";
}

abbrev five_minutes : ℕ
five_minutes = 300000000000

abbrev pub config : Config
config = record { max_skew = five_minutes; nonce_ttl = 0 }

authenticate_iff_example :
    ((authenticate plain_platform mem_keys mem_nonces config noon signed_request (one_key, [])).0
      ≡ accepted (principal_of live_record))
    ↔ IsGenuine plain_platform mem_keys mem_nonces config noon signed_request one_key []
        (principal_of live_record)
authenticate_iff_example =
    authenticate_iff plain_platform mem_keys mem_nonces config noon signed_request one_key []
      (principal_of live_record)

skew_of_iff_example : (ltb_ℤ (pos five_minutes) (skew_of noon (pos 1772366400)) ≡ false) ↔ (
    (1772366400 + 62135596800 < 9223372036854775808)
    × (((noon ≤ instant_of 1772366400 + five_minutes)
          × (instant_of 1772366400 ≤ noon + five_minutes))
        ⊎ (noon + 9223372036854775808 ≤ instant_of 1772366400)))
skew_of_iff_example = skew_of_iff noon 1772366400 five_minutes (omega arith) (omega arith)

-- Hex is left empty here.
abbrev blank_platform : Platform
blank_platform = record plain_platform { hex_encode = λ s. [] }

canonical_string-injective_example :
    (str "POST" ≡ str "POST")
    × (str "/a" ≡ str "/a")
    × (str "1" ≡ str "1")
    × (str "n" ≡ str "n")
    × (str "" ≡ str "")
unfolding canonical_string
canonical_string-injective_example =
    canonical_string-injective blank_platform (str "POST") (str "/a") (str "1") (str "n") (str "x")
      (str "POST") (str "/a") (str "1") (str "n") (str "y") refl refl (λ s. refl)

abbrev revoked_info : KeyInfo
revoked_info = record {
  key_id = live_record.key_id;
  org_id = org;
  tier = str "free";
  env = str "test";
  status = str "revoked";
  shadow = true;
  created_at = 0;
  revoked_at = some noon;
}

revoke_key-refused_example : ¬ (
    (authenticate plain_platform mem_keys mem_nonces config noon signed_request
      ((revoke_key org live_record.key_id noon one_key).1, [])).0
    ≡ accepted (principal_of live_record))
unfolding revoke_key bearer_key parse_key key_id_of first skip has_prefix str_eq lookup insert
    info_of
revoke_key-refused_example =
    revoke_key-refused plain_platform mem_nonces config org live_record.key_id noon one_key
      {i = revoked_info} noon signed_request [] raw_key raw_key (principal_of live_record) refl refl
      refl

new_key-accepted_example :
    ((authenticate plain_platform mem_keys mem_nonces config noon signed_request
        (create_key live_record noon no_keys, [])).0
      ≡ accepted (principal_of live_record))
    × (org ≡ org)
    × (true ≡ true)
unfolding new_key bearer_key sign parse_int parse_digits skew_of mem_remember key_id_of first skip
    has_prefix str_eq lookup time_unix sub_time wrap64 ◌+ℤ◌ ◌-ℤ◌ scale sub64
new_key-accepted_example =
    new_key-accepted plain_platform (str "secret1") (str "test") org (str "free") mem_nonces config
      raw_key live_record noon noon no_keys signed_request [] (pos 1772366400) refl (λ s. refl) refl
      refl refl (omega arith) (omega arith) refl refl refl
