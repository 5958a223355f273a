-- ===== src/Auth/Canonical.antt =====
-- What a signature covers: the canonical string, read back.
use borges_labs.Base.{ℕ, ◌+◌, ◌≡◌, refl, ap, [], ◌∷◌, ◌++◌, Str, str, arith, ◌==◌, if◌then◌else◌}
use borges_labs.Auth.{Platform, canonical_string}

-- The number of line feeds.
abbrev pub feeds : Str → ℕ
feeds [] = 0
feeds (c ∷ s) = (if c == 10 then 1 else 0) + feeds s

feeds-append : (s t : Str) → feeds (s ++ t) ≡ feeds s + feeds t
feeds-append [] t = omega arith
feeds-append (c ∷ s) t = omega (arith, feeds-append s t)

-- Two texts cut at a line feed are cut at the same place: where what stands before has none, ...
front_split :
    (s t a b : Str) → s ++ 10 ∷ a ≡ t ++ 10 ∷ b → feeds s ≡ 0 → feeds t ≡ 0 → (s ≡ t) × (a ≡ b)
front_split [] [] a b e m n = ground arith
front_split [] (d ∷ t) a b e m n = absurd (ground arith)
front_split (c ∷ s) [] a b e m n = absurd (ground arith)
front_split (c ∷ s) (d ∷ t) a b e m n =
    let (same, rest) = front_split s t a b (ground arith) (omega arith) (omega arith) in
    (ground (arith, same), rest)

-- ... and where what stands behind has equally many.
back_split : (s t a b : Str) → s ++ 10 ∷ a ≡ t ++ 10 ∷ b → feeds a ≡ feeds b → (s ≡ t) × (a ≡ b)
back_split [] [] a b e n = ground arith
back_split [] (d ∷ t) a b e n =
    let it : a ≡ t ++ 10 ∷ b = ground arith in
    absurd (omega (arith, ap feeds it, feeds-append t (10 ∷ b)))
back_split (c ∷ s) [] a b e n =
    let it : b ≡ s ++ 10 ∷ a = ground arith in
    absurd (omega (arith, ap feeds it, feeds-append s (10 ∷ a)))
back_split (c ∷ s) (d ∷ t) a b e n =
    let (same, rest) = back_split s t a b (ground arith) n in (ground (arith, same), rest)

module _ (platform : Platform) where
  -- The fields of two requests that are signed over one canonical string agree, with the methods
  -- in upper case and the bodies by their hash, also where a path has line feeds. Methods,
  -- timestamps and nonces have none, and hex has none.
  pub canonical_string-injective :
      (method path timestamp nonce body method2 path2 timestamp2 nonce2 body2 : Str)
      → canonical_string platform method path timestamp nonce body
        ≡ canonical_string platform method2 path2 timestamp2 nonce2 body2
      → feeds (platform.to_upper method)
          + feeds timestamp
          + feeds nonce
          + (feeds (platform.to_upper method2) + feeds timestamp2 + feeds nonce2)
        ≡ 0
      → ((s : Str) → feeds (platform.hex_encode s) ≡ 0)
      → (platform.to_upper method ≡ platform.to_upper method2)
        × (path ≡ path2)
        × (timestamp ≡ timestamp2)
        × (nonce ≡ nonce2)
        × (platform.hex_encode (platform.sha256 body) ≡ platform.hex_encode (platform.sha256 body2))
  unfolding canonical_string
  canonical_string-injective method path timestamp nonce body method2 path2 timestamp2 nonce2 body2
        e lines hex =
      let last = platform.hex_encode (platform.sha256 body) in
      let last2 = platform.hex_encode (platform.sha256 body2) in
      let end = timestamp ++ 10 ∷ (nonce ++ 10 ∷ last) in
      let end2 = timestamp2 ++ 10 ∷ (nonce2 ++ 10 ∷ last2) in
      let target = platform.to_upper method ++ 10 ∷ (path ++ 10 ∷ end) in
      let target2 = platform.to_upper method2 ++ 10 ∷ (path2 ++ 10 ∷ end2) in
      let (_, signed) =
        front_split (str "azn-hmac/1") (str "azn-hmac/1") target target2 e refl refl in
      let (upper, rest) =
        front_split (platform.to_upper method) (platform.to_upper method2) (path ++ 10 ∷ end)
          (path2 ++ 10 ∷ end2) signed (omega (arith, lines)) (omega (arith, lines)) in
      let (at, rest2) = back_split path path2 end end2 rest (
        omega (
          arith,
          lines,
          hex (platform.sha256 body),
          hex (platform.sha256 body2),
          feeds-append timestamp (10 ∷ (nonce ++ 10 ∷ last)),
          feeds-append nonce (10 ∷ last),
          feeds-append timestamp2 (10 ∷ (nonce2 ++ 10 ∷ last2)),
          feeds-append nonce2 (10 ∷ last2),
        )) in
      let (stamp, rest3) =
        front_split timestamp timestamp2 (nonce ++ 10 ∷ last) (nonce2 ++ 10 ∷ last2) rest2
          (omega (arith, lines)) (omega (arith, lines)) in
      let (once, hash) =
        front_split nonce nonce2 last last2 rest3 (omega (arith, lines)) (omega (arith, lines)) in
      (upper, at, stamp, once, hash)
