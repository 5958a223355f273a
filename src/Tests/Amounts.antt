-- ===== src/Tests/Amounts.antt =====
-- Amounts of money as texts, and the counter.
use borges_labs.Base.{
  ◌+◌, ◌≡◌, ◌≤◌, ◌-◌, ◌*◌, refl, true, List, [], ◌∷◌, Str, str, str_eq, arith, some, pos, negsuc,
  u64_mod, lookup,
}
use borges_labs.Predicate.Money.{read_digits}
use borges_labs.Cents.{to_cents, cents_to_str}
use borges_labs.Cents.Format.{IsDigits}
use borges_labs.Cents.Exact.{to_cents-cents_to_str, to_cents_overflow}
use borges_labs.Counter.{value, mem_reserve}
use borges_labs.Counter.NoOversell.{Attempt, granted, run, run-no_oversell, mem_reserve-overflow}

to_cents-cents_to_str_example : to_cents (cents_to_str (pos 5025)) ≡ some (pos 5025)
to_cents-cents_to_str_example = to_cents-cents_to_str 5025 (omega arith)

forty : read_digits 0 (str "40") ≡ some 40
unfolding read_digits
forty = refl

forty-IsDigits : IsDigits (str "40")
forty-IsDigits = ground arith

abbrev huge : Str
huge = str "92233720368547759"

huge-IsDigits : IsDigits huge
huge-IsDigits = ground arith

huge_read : read_digits 0 huge ≡ some 92233720368547759
unfolding read_digits
huge_read = refl

to_cents_overflow_example : to_cents huge ≡ some (negsuc (u64_mod - 92233720368547759 * 100 - 1))
to_cents_overflow_example =
    to_cents_overflow huge 92233720368547759 huge-IsDigits (λ h. cc) huge_read (omega arith)
      (omega arith)

-- 30 and 15 are granted within 50, the 20 between them is not.
abbrev attempts : List Attempt
attempts = (str "a", 30) ∷ (str "a", 20) ∷ (str "a", 15) ∷ []

run-no_oversell_example :
    (value (str "a") (run (λ k. 50) attempts []).1
      ≡ pos (granted (str "a") (run (λ k. 50) attempts []).0))
    × (granted (str "a") (run (λ k. 50) attempts []).0 ≤ 50)
run-no_oversell_example = run-no_oversell (λ k. 50) attempts (ground arith) (str "a")

mem_reserve-overflow_example :
    ((mem_reserve (str "a") (pos 1) (pos 50) ((str "a", pos 9223372036854775807) ∷ [])).0
      ≡ (true, pos 9223372036854775807))
    × (value
          (str "a")
          (mem_reserve (str "a") (pos 1) (pos 50) ((str "a", pos 9223372036854775807) ∷ [])).1
        ≡ negsuc (u64_mod - (9223372036854775807 + 1) - 1))
mem_reserve-overflow_example =
    mem_reserve-overflow (str "a") 1 9223372036854775807 50
      ((str "a", pos 9223372036854775807) ∷ []) (unfold value lookup str_eq in refl) (omega arith)
      (omega arith)
