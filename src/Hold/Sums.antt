-- ===== src/Hold/Sums.antt =====
-- Sums over the ledger, by a weight on its entries, and how each write changes them.
use borges_labs.Base.{
  ℕ, suc, ◌+◌, ◌≡◌, true, none, some, List, [], ◌∷◌, Str, arith, str_eq, str_eq_iff, lookup, insert,
  All, Bool-cases, inl, inr,
}
use borges_labs.Clock.{Time}
use borges_labs.Hold.{Hold, Holds, expired, is_due, expire_loop}

-- A sum over the holds that a pass of `ExpireDue` returns.
unfoldable pub sum_released : (Hold → ℕ) → List Hold → ℕ
sum_released freed [] = 0
sum_released freed (h ∷ hs) = freed h + sum_released freed hs

module _ (weight : Str → Hold → ℕ) where
  unfoldable pub sum_by : Holds → ℕ
  sum_by [] = 0
  sum_by ((k, h) ∷ m) = weight k h + sum_by m

  -- Replacing the hold at a key exchanges its weight.
  pub sum_by-insert-some :
      (k : Str) (h old : Hold) (m : Holds)
      → lookup k m ≡ some old
      → sum_by (insert k h m) + weight k old ≡ sum_by m + weight k h
  unfolding sum_by lookup insert
  sum_by-insert-some k h old [] e = cc
  sum_by-insert-some k h old ((j, g) ∷ m) e = elim (Bool-cases (str_eq j k)) [
    | inl same ↦ ground (arith, (str_eq_iff j k).0 same)
    | inr differs ↦ ground (arith, sum_by-insert-some k h old m)
  ]

  -- A hold at a new key adds its weight.
  pub sum_by-insert-none :
      (k : Str) (h : Hold) (m : Holds)
      → lookup k m ≡ none
      → sum_by (insert k h m) ≡ sum_by m + weight k h
  unfolding sum_by lookup insert
  sum_by-insert-none k h [] e = omega arith
  sum_by-insert-none k h ((j, g) ∷ m) e = ground (arith, sum_by-insert-none k h m)

  -- An entry gives up on expiry the amount that is counted for the returned copy.
  abbrev pub Frees : (Hold → ℕ) → Time → Str × Hold → Type 0
  Frees freed now (k, h) =
      is_due now h ≡ true
      → weight k h ≡ weight k (record h { state = expired }) + freed (record h { state = expired })

  pub sum_by-expire_loop :
      (freed : Hold → ℕ) (now limit count : ℕ) (m : Holds)
      → All (Frees freed now) m
      → sum_by m
        ≡ sum_by (expire_loop now limit count m).1
          + sum_released freed (expire_loop now limit count m).0
  unfolding sum_by sum_released expire_loop
  sum_by-expire_loop freed now limit count [] a = omega arith
  sum_by-expire_loop freed now limit count ((k, h) ∷ m) a = ground (
    arith,
    sum_by-expire_loop freed now limit count m a.1,
    sum_by-expire_loop freed now limit (suc count) m a.1,
    a.0,
  )
