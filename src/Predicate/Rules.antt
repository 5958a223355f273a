-- ===== src/Predicate/Rules.antt =====
-- What each local predicate decides, against statements that do not follow its code.
use borges_labs.Base.{
  str_eq_self, ◌∙◌, if◌then◌else◌, ℕ, ◌+◌, ◌-◌, ◌%◌, ◌<◌, ◌≡◌, refl, ◌≢◌, ◌↔◌, ◌⊎◌, inl, inr, true,
  false, not, ◌&&◌, List, [], ◌∷◌, arith, Str, str_eq, str_eq_iff, contains, Has, here, there, some,
  is_empty, Bool-cases, Option-cases, ◌==◌, ==_iff,
}
use borges_labs.Clock.{Platform, Rat}
use borges_labs.Contracts.{vendor}
use borges_labs.Verdict.{satisfied, denied, flagged, unavailable}
use borges_labs.Predicate.{
  Predicate, Input, agent_permission, vendor_allowlist, vendor_blocklist, time_window,
  jurisdiction_currency, evaluate, evaluate_limit, evaluate_allowlist, evaluate_blocklist,
  evaluate_permission, evaluate_time, evaluate_jurisdiction, applies_to, within_window,
  contains_int, per_transaction_limit,
}
use borges_labs.Predicate.Money.{parse_money, rat_gt}

-- The loop finds exactly the strings that stand in the list.
pub contains→Has : (list : List Str) (v : Str) → contains list v ≡ true → Has v list
unfolding contains
contains→Has [] v h = cc
contains→Has (s ∷ list) v h = elim (Bool-cases (str_eq s v)) [
  | inl e ↦ rw ((str_eq_iff s v).0 e) here
  | inr e ↦ there (contains→Has list v (ground arith))
]

pub Has→contains : (v : Str) {list : List Str} → Has v list → contains list v ≡ true
unfolding contains
Has→contains v here = ground (arith, str_eq_iff v v)
Has→contains v (there m) = ground (arith, Has→contains v m)

pub contains_iff : (list : List Str) (v : Str) → (contains list v ≡ true) ↔ Has v list
contains_iff list v = (contains→Has list v, Has→contains v)

-- The same loop over numbers.
pub contains_int→Has : (list : List ℕ) (v : ℕ) → contains_int list v ≡ true → Has v list
unfolding contains_int
contains_int→Has [] v h = cc
contains_int→Has (x ∷ list) v h = elim (Bool-cases (x == v)) [
  | inl e ↦ rw ((==_iff x v).0 e) here
  | inr e ↦ there (contains_int→Has list v (ground arith))
]

-- A rule applies to an agent exactly when it names no agents or names this one.
pub applies_to_iff :
    (agents : List Str) (agent : Str)
    → (applies_to agents agent ≡ true) ↔ ((agents ≡ []) ⊎ Has agent agents)
unfolding applies_to
applies_to_iff [] agent = (λ h. inl refl, λ h. refl)
applies_to_iff (a ∷ agents) agent = (
  λ h. inr (contains→Has (a ∷ agents) agent h),
  λ h. elim h [ inl e ↦ cc | inr m ↦ Has→contains agent m ],
)

-- A window from `start` to `end` holds the minutes that a clock that runs from `start` meets
-- before it meets `end`, across midnight too; where the two are equal it holds all.
pub within_window-clock :
    (minute start end : ℕ)
    → minute < 1440
    → start < 1440
    → end < 1440
    → (within_window minute start end ≡ true)
      ↔ ((start ≡ end) ⊎ ((minute + 1440 - start) % 1440 < (end + 1440 - start) % 1440))
unfolding within_window
within_window-clock minute start end h k l = (λ e. ground arith, λ e. ground arith)

-- No local predicate is ever unavailable.
pub evaluate-ne-unavailable :
    (platform : Platform) (p : Predicate) (i : Input)
    → (evaluate platform p i).outcome ≢ unavailable
unfolding evaluate evaluate_limit evaluate_allowlist evaluate_blocklist evaluate_permission
    evaluate_time evaluate_jurisdiction
evaluate-ne-unavailable platform (per_transaction_limit _ max_raw currency) i = ground arith
evaluate-ne-unavailable platform (vendor_allowlist _ vendors) i = ground arith
evaluate-ne-unavailable platform (vendor_blocklist _ vendors) i = ground arith
evaluate-ne-unavailable platform (agent_permission _ actions targets) i = ground arith
evaluate-ne-unavailable platform (time_window _ start end weekdays) i = ground arith
evaluate-ne-unavailable platform (jurisdiction_currency _ allowed) i = ground arith

-- The amount and the limit can be compared: both parse, and the limit is in no currency or in
-- that of the request.
abbrev pub Comparable : Platform → Str → Str → Input → Rat → Rat → Type 0
Comparable platform max_raw currency i max amount =
    (parse_money platform max_raw ≡ some max)
    × (i.amount ≡ some amount)
    × ((currency ≡ []) ⊎ (currency ≡ i.currency))

same_currency : (c d : Str) → (not (is_empty c) && not (str_eq c d)) ≡ false → (c ≡ []) ⊎ (c ≡ d)
same_currency [] d h = inl refl
same_currency (x ∷ c) d h = inr ((str_eq_iff (x ∷ c) d).0 (ground arith))

limit_compared :
    (platform : Platform) (max_raw currency : Str) (i : Input)
    → (evaluate_limit platform max_raw currency i).outcome ≢ flagged
    → (max : Rat) × (amount : Rat) × Comparable platform max_raw currency i max amount
unfolding evaluate_limit
limit_compared platform max_raw currency i h = elim (Option-cases (parse_money platform max_raw)) [
  | inl e ↦ absurd (h (ground arith))
  | inr (max, e) ↦ elim (Bool-cases (not (is_empty currency) && not (str_eq currency i.currency))) [
    | inl other ↦ absurd (h (ground arith))
    | inr same ↦ elim (Option-cases i.amount) [
      | inl none_read ↦ absurd (h (ground arith))
      | inr (amount, read) ↦ (max, amount, (e, read, same_currency currency i.currency same))
    ]
  ]
]

comparable_currency :
    (c d : Str) → (c ≡ []) ⊎ (c ≡ d) → (not (is_empty c) && not (str_eq c d)) ≡ false
comparable_currency c d (inl e) = rw e refl
comparable_currency c d (inr e) = rw (e, str_eq_self d) (ground arith)

limit_decides :
    (platform : Platform) (max_raw currency : Str) (i : Input) {max amount : Rat}
    → Comparable platform max_raw currency i max amount
    → (evaluate_limit platform max_raw currency i).outcome
      ≡ (if rat_gt amount max then denied else satisfied)
unfolding evaluate_limit
limit_decides platform max_raw currency i (e, read, same) =
    ground (arith, comparable_currency currency i.currency same)

-- A limit is satisfied exactly when limit and amount can be compared, both readable and in the
-- same currency where the limit names one, and the amount does not exceed the limit; it denies
-- exactly when they can be compared and the amount exceeds the limit.
pub evaluate_limit_iff :
    (platform : Platform) (max_raw currency : Str) (i : Input)
    → (((evaluate_limit platform max_raw currency i).outcome ≡ satisfied) ↔ (
        (max : Rat) × (amount : Rat) × Comparable platform max_raw currency i max amount
        × (rat_gt amount max ≡ false)))
      × (((evaluate_limit platform max_raw currency i).outcome ≡ denied) ↔ (
          (max : Rat) × (amount : Rat) × Comparable platform max_raw currency i max amount
          × (rat_gt amount max ≡ true)))
evaluate_limit_iff platform max_raw currency i = (
  (
    λ h.
        let (max, amount, c) = limit_compared platform max_raw currency i (λ e. cc (e, h)) in
        (max, amount, c, ground (arith, limit_decides platform max_raw currency i c)),
    λ (max, amount, c, e). limit_decides platform max_raw currency i c ∙ rw e refl,
  ),
  (
    λ h.
        let (max, amount, c) = limit_compared platform max_raw currency i (λ e. cc (e, h)) in
        (max, amount, c, ground (arith, limit_decides platform max_raw currency i c)),
    λ (max, amount, c, e). limit_decides platform max_raw currency i c ∙ rw e refl,
  ),
)

-- For a target that is a vendor, the allowlist is satisfied exactly by the vendors on its list,
-- and the blocklist denies exactly those on its own.
pub vendor_lists_opposed :
    (vendors : List Str) (i : Input)
    → i.target.type ≡ vendor
    → (((evaluate_allowlist vendors i).outcome ≡ satisfied) ↔ Has i.target.id vendors)
      × (((evaluate_blocklist vendors i).outcome ≡ denied) ↔ Has i.target.id vendors)
unfolding evaluate_allowlist evaluate_blocklist
vendor_lists_opposed vendors i h = (
  (
    λ e. contains→Has vendors i.target.id (ground arith),
    λ m. ground (arith, Has→contains i.target.id m),
  ),
  (
    λ e. contains→Has vendors i.target.id (ground arith),
    λ m. ground (arith, Has→contains i.target.id m),
  ),
)

unless_empty :
    (list : List Str) (v : Str)
    → ((not (is_empty list) && not (contains list v)) ≡ false) ↔ ((list ≡ []) ⊎ Has v list)
unless_empty [] v = (λ h. inl refl, λ h. refl)
unless_empty (s ∷ list) v = (
  λ h. inr (contains→Has (s ∷ list) v (ground arith)),
  λ h. elim h [ inl e ↦ cc | inr m ↦ rw (Has→contains v m) ],
)

-- An agent's permission is satisfied exactly when each list that is not empty holds the
-- request's action, respectively its target.
pub evaluate_permission_iff :
    (actions targets : List Str) (i : Input)
    → ((evaluate_permission actions targets i).outcome ≡ satisfied)
      ↔ (((actions ≡ []) ⊎ Has i.action actions) × ((targets ≡ []) ⊎ Has i.target.id targets))
unfolding evaluate_permission
evaluate_permission_iff actions targets i = (
  λ h. (
    (unless_empty actions i.action).0 (ground arith),
    (unless_empty targets i.target.id).0 (ground arith),
  ),
  λ h.
      ground
        (arith, (unless_empty actions i.action).1 h.0, (unless_empty targets i.target.id).1 h.1),
)
