-- ===== src/Audit/Crypto.antt =====
-- Encryption of fields at rest (services/authorize-svc/internal/audit/crypto.go). AES-256-GCM, the
-- source of random nonces and base64 are parameters: what they seal they open, a nonce has the
-- length that was asked for, and what base64 encodes it decodes.
use borges_labs.Base.{
  ℕ, ◌-◌, ◌≡◌, refl, inl, inr, false, not, Option, none, some, [], ◌∷◌, ◌++◌, Str, str, arith,
  length, length-append, ltb, ◌==◌, has_prefix, has_prefix_self, if◌then◌else◌, Option-cases,
}
use borges_labs.Audit.{Encryptor}
use borges_labs.Audit.Chain.{IsLawful}

abbrev pub cipher_prefix : Str
cipher_prefix = str "enc:v1:"

-- `strings.TrimPrefix`, of a string that has the prefix
unfoldable pub trim_prefix : Str → Str → Str
trim_prefix s [] = s
trim_prefix [] (b ∷ p) = []
trim_prefix (a ∷ s) (b ∷ p) = trim_prefix s p

-- `raw[:n]` and `raw[n:]`
unfoldable pub take : ℕ → Str → Str
take n [] = []
take n (a ∷ s) = let rest = take (n - 1) s in if n == 0 then [] else a ∷ rest

unfoldable pub drop : ℕ → Str → Str
drop n [] = []
drop n (a ∷ s) = let rest = drop (n - 1) s in if n == 0 then a ∷ s else rest

pub record Primitives (W : Type 0) : Type 0 where
  pub nonce_size : ℕ
  -- `rand.Read` of a number of bytes; `none` is its error
  pub read_random : ℕ → W → Option Str × W
  -- `aead.Seal` and `aead.Open`, by nonce
  pub seal : Str → Str → Str
  pub open_sealed : Str → Str → Option Str
  pub encode : Str → Str
  pub decode : Str → Option Str

module _ {W : Type 0} where
  -- `NopEncryptor`
  abbrev pub nop_encryptor : Encryptor W
  nop_encryptor = record {
    encrypt = λ plaintext w. (some plaintext, w);
    decrypt = λ stored. if has_prefix stored cipher_prefix then none else some stored;
  }

  module _ (prims : Primitives W) where
    -- `AESGCM.Encrypt`
    unfoldable pub aes_encrypt : Str → W → Option Str × W
    aes_encrypt plaintext w =
        let step = prims.read_random prims.nonce_size w in
        elim step.0 [
          | none ↦ (none, step.1)
          | some nonce ↦
              (some (cipher_prefix ++ prims.encode (nonce ++ prims.seal nonce plaintext)), step.1)
        ]

    abbrev pub open_raw : Option Str → Option Str
    open_raw none = none
    open_raw (some raw) =
        if ltb (length raw) prims.nonce_size
        then none
        else prims.open_sealed (take prims.nonce_size raw) (drop prims.nonce_size raw)

    -- `AESGCM.Decrypt`
    unfoldable pub aes_decrypt : Str → Option Str
    aes_decrypt stored =
        if not (has_prefix stored cipher_prefix)
        then some stored
        else open_raw (prims.decode (trim_prefix stored cipher_prefix))

    abbrev pub aes_gcm : Encryptor W
    aes_gcm = record { encrypt = aes_encrypt; decrypt = aes_decrypt }

    -- What the code relies on.
    pub record IsSound : Type 0 where
      pub opens : (nonce s : Str) → prims.open_sealed nonce (prims.seal nonce s) ≡ some s
      pub decodes : (s : Str) → prims.decode (prims.encode s) ≡ some s
      pub sized :
          (w : W) (nonce : Str)
          → (prims.read_random prims.nonce_size w).0 ≡ some nonce
          → length nonce ≡ prims.nonce_size

trim_prefix_self : (p s : Str) → trim_prefix (p ++ s) p ≡ s
unfolding trim_prefix
trim_prefix_self [] s = refl
trim_prefix_self (a ∷ p) s = trim_prefix_self p s

take-append : (n : ℕ) (s t : Str) → length s ≡ n → take n (s ++ t) ≡ s
unfolding take
take-append n [] [] e = refl
take-append n [] (a ∷ t) e = ground arith
take-append n (a ∷ s) t e = ground (arith, take-append (n - 1) s t (omega arith))

drop-append : (n : ℕ) (s t : Str) → length s ≡ n → drop n (s ++ t) ≡ t
unfolding drop
drop-append n [] [] e = refl
drop-append n [] (a ∷ t) e = ground arith
drop-append n (a ∷ s) t e = ground (arith, drop-append (n - 1) s t (omega arith))

module _ {W : Type 0} (prims : Primitives W) where
  made_open :
      IsSound prims
      → (c raw nonce s : Str) → c ≡ cipher_prefix ++ prims.encode raw
      → ltb (length raw) prims.nonce_size ≡ false
      → length nonce ≡ prims.nonce_size
      → raw ≡ nonce ++ prims.seal nonce s
      → aes_decrypt prims c ≡ some s
  unfolding aes_decrypt
  made_open sound c raw nonce s made long size split =
      let head = take-append prims.nonce_size nonce (prims.seal nonce s) size in
      let rest = drop-append prims.nonce_size nonce (prims.seal nonce s) size in
      ground (
        arith,
        made,
        has_prefix_self cipher_prefix (prims.encode raw),
        trim_prefix_self cipher_prefix (prims.encode raw),
        sound.decodes raw,
        long,
        split,
        head,
        rest,
        sound.opens nonce s,
      )

  -- Under the laws of its primitives, what AES-GCM encrypts it decrypts to the same text.
  pub aes_gcm-IsLawful : IsSound prims → IsLawful (aes_gcm prims)
  unfolding aes_encrypt aes_decrypt
  aes_gcm-IsLawful sound s w c e = elim (Option-cases (prims.read_random prims.nonce_size w).0) [
    | inl bad ↦ absurd (ground arith)
    | inr (nonce, drawn) ↦
        let raw = nonce ++ prims.seal nonce s in
        let size = sound.sized w nonce drawn in
        let made : c ≡ cipher_prefix ++ prims.encode raw = ground arith in
        let long : ltb (length raw) prims.nonce_size ≡ false =
          ground (arith, length-append nonce (prims.seal nonce s), size) in
        made_open sound c raw nonce s made long size refl
  ]

  -- A text that is stored without encryption is read as it is, unless it has the prefix of
  -- ciphertexts.
  pub aes_decrypt_plain :
      (s : Str) → has_prefix s cipher_prefix ≡ false → aes_decrypt prims s ≡ some s
  unfolding aes_decrypt
  aes_decrypt_plain s e = rw (aes_decrypt, e) refl
