-- ===== src/Auth/Replay.antt =====
-- The nonces of accepted requests (services/authorize-svc/internal/auth/memory.go, MemNonceStore),
-- and requests that are sent again.
use borges_labs.Base.{
  ℕ, ◌+◌, ◌≤◌, ◌≡◌, refl, inl, inr, Bool, true, false, Option, none, some, List, [], ◌∷◌, ◌++◌, Str,
  arith, Dict, lookup, insert, if◌then◌else◌, Option-cases,
}
use borges_labs.Clock.{Time, after}
use borges_labs.Auth.{
  Request, Platform, KeyRecord, Error, KeyStore, NonceStore, Config, bearer_key, parse_key,
  check_record, verify_signature, denied, answer_of, authenticate_record, authenticate_found,
  authenticate,
}
use borges_labs.Auth.Genuine.{Checked-cases, Found-cases}

abbrev pub Nonces : Type 0
Nonces = Dict Time

abbrev pub nonce_key : Str → Str → Str
nonce_key key_id nonce = key_id ++ 0 ∷ nonce

abbrev is_held : Time → Option Time → Bool
is_held now none = false
is_held now (some exp) = after exp now

-- `MemNonceStore.Remember`
unfoldable pub mem_remember : Time → Str → Str → ℕ → Nonces → Bool × Nonces
mem_remember now key_id nonce ttl seen =
    let k = nonce_key key_id nonce in
    if is_held now (lookup k seen) then (false, seen) else (true, insert k (now + ttl) seen)

abbrev pub mem_nonces : NonceStore Nonces
mem_nonces = record {
  remember = λ now key_id nonce ttl seen.
      let step = mem_remember now key_id nonce ttl seen in (some step.0, step.1);
}

-- The nonce is remembered until a time, or longer.
abbrev pub HoldsUntil : Str → Time → Nonces → Type 0
HoldsUntil k until seen = (exp : Time) × (lookup k seen ≡ some exp) × (until ≤ exp)

module _ {K : Type 0} (platform : Platform) (keys : KeyStore K) (cfg : Config) where
  -- What one request does to the nonces.
  Preserves : (Nonces → Type 0) → Request → Time → Type 0
  Preserves P req now =
      (key_id : Str) (seen : Nonces)
      → P seen
      → P (mem_remember now key_id req.header.x_nonce cfg.nonce_ttl seen).1

  -- Requests, each with its time.
  unfoldable pub run : List (Time × Request) → K × Nonces → K × Nonces
  run [] s = s
  run ((now, req) ∷ calls) s = run calls (authenticate platform keys mem_nonces cfg now req s).1

  denied_record :
      (now : Time) (req : Request) (raw_key hash_hex : Str) (rec : KeyRecord) (k : K)
      (seen : Nonces) (e : Error)
      → (authenticate_record platform keys mem_nonces cfg now req raw_key hash_hex rec (k, seen)).0
        ≡ denied e
      → (authenticate_record platform keys mem_nonces cfg now req raw_key hash_hex rec
          (k, seen)).1.1
        ≡ seen
  unfolding authenticate_record answer_of mem_remember
  denied_record now req raw_key hash_hex rec k seen x e =
      elim (Option-cases (check_record platform rec hash_hex)) [
        | inr (x, bad) ↦ ground arith
        | inl live ↦ elim (Option-cases (verify_signature platform cfg now req raw_key)) [
          | inr (x, bad) ↦ ground arith
          | inl signed ↦ ground arith
        ]
      ]

  -- A request that is refused uses up no nonce.
  pub denied-nonces :
      (now : Time) (req : Request) (k : K) (seen : Nonces) (e : Error)
      → (authenticate platform keys mem_nonces cfg now req (k, seen)).0 ≡ denied e
      → (authenticate platform keys mem_nonces cfg now req (k, seen)).1.1 ≡ seen
  unfolding authenticate authenticate_found
  denied-nonces now req k seen err e = elim (Checked-cases (bearer_key platform req.header)) [
    | inl (x, bad) ↦ rw (authenticate, bad) refl
    | inr (raw_key, carried) ↦ elim (Checked-cases (parse_key platform raw_key)) [
      | inl (x, bad) ↦ rw (authenticate, carried, bad) refl
      | inr ((key_id, hash_hex), formed) ↦ elim (Found-cases (keys.lookup_by_id key_id k).0) [
        | inl (inl bad) ↦ rw (authenticate, carried, formed, bad) refl
        | inl (inr bad) ↦ rw (authenticate, carried, formed, bad) refl
        | inr (rec, known) ↦
            rw (authenticate, carried, formed, known)
              (denied_record now req raw_key hash_hex rec (keys.lookup_by_id key_id k).1 seen err
                (ground arith))
      ]
    ]
  ]
