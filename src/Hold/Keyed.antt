-- ===== src/Hold/Keyed.antt =====
-- The keys of the ledger and the holds that stand under them.

use borges_labs.Base.{
  ℕ, suc, ◌≡◌, refl, sym, ◌∙◌, inl, inr, some, [], ◌∷◌, Str, arith, str_eq, str_eq_iff, lookup,
  insert, Option-cases, Bool-cases, All,
}
use borges_labs.Clock.{Time}
use borges_labs.Hold.{
  Hold, key, Holds, place, is_due, expire, capture, capture_switch, void, void_switch, get,
  expire_loop, expire_due,
}
use borges_labs.Hold.Transitions.{
  Op, place_op, capture_op, void_op, get_op, expire_op, apply, capture-stores, void-stores,
  get-stores, missing_unchanged,
}

abbrev pub own_key : Hold → Str
own_key h = key h.org_id h.decision_id

abbrev pub IsKeyed : Holds → Type 0
IsKeyed m = All (λ (e : Str × Hold). e.0 ≡ own_key e.1) m

pub IsKeyed-lookup :
    (k : Str) (m : Holds) {h : Hold} → IsKeyed m → lookup k m ≡ some h → k ≡ own_key h
unfolding lookup
IsKeyed-lookup k [] a e = cc
IsKeyed-lookup k ((j, g) ∷ m) {h} a e = elim (Bool-cases (str_eq j k)) [
  | inl same ↦ ground (arith, (str_eq_iff j k).0 same, a.0)
  | inr differs ↦ IsKeyed-lookup k m {h = h} a.1 (ground arith)
]

pub IsKeyed-insert :
    (k : Str) (h : Hold) (m : Holds) → IsKeyed m → k ≡ own_key h → IsKeyed (insert k h m)
unfolding insert
IsKeyed-insert k h [] a e = (e, tt)
IsKeyed-insert k h ((j, g) ∷ m) a e = elim (Bool-cases (str_eq j k)) [
  | inl same ↦ rw same (e, a.1)
  | inr differs ↦ rw differs (a.0, IsKeyed-insert k h m a.1 e)
]

-- No method changes the decision that a hold belongs to.
expire-own_key : (now : Time) (h : Hold) → own_key (expire now h) ≡ own_key h
unfolding expire is_due
expire-own_key now h = ground arith

capture_switch-own_key :
    (now : Time) (h : Hold) → own_key (capture_switch h.state now h).1 ≡ own_key h
capture_switch-own_key now h = ground arith

void_switch-own_key : (now : Time) (h : Hold) → own_key (void_switch h.state now h).1 ≡ own_key h
void_switch-own_key now h = ground arith

module _ (now : Time) (org id : Str) (m : Holds) (a : IsKeyed m) where
  expired-IsKeyed :
      {h : Hold} → lookup (key org id) m ≡ some h → IsKeyed (insert (key org id) (expire now h) m)
  expired-IsKeyed {h} e =
      IsKeyed-insert (key org id) (expire now h) m a
        (IsKeyed-lookup (key org id) m a e ∙ sym (expire-own_key now h))

  again-IsKeyed :
      {h : Hold} (g : Hold)
      → lookup (key org id) m ≡ some h
      → own_key g ≡ own_key (expire now h)
      → IsKeyed (insert (key org id) g (insert (key org id) (expire now h) m))
  again-IsKeyed {h} g e k =
      IsKeyed-insert (key org id) g _ (expired-IsKeyed e)
        (IsKeyed-lookup (key org id) m a e ∙ sym (expire-own_key now h) ∙ sym k)

  capture-IsKeyed : IsKeyed (capture now org id m).1
  capture-IsKeyed = elim (Option-cases (lookup (key org id) m)) [
    | inl missing ↦ rw (missing_unchanged now org id m missing).0 a
    | inr (h, e) ↦
        rw (capture-stores now org id m e)
          (again-IsKeyed _ e (capture_switch-own_key now (expire now h)))
  ]

  void-IsKeyed : IsKeyed (void now org id m).1
  void-IsKeyed = elim (Option-cases (lookup (key org id) m)) [
    | inl missing ↦ rw (missing_unchanged now org id m missing).1 a
    | inr (h, e) ↦
        rw (void-stores now org id m e) (again-IsKeyed _ e (void_switch-own_key now (expire now h)))
  ]

  get-IsKeyed : IsKeyed (get now org id m).1
  get-IsKeyed = elim (Option-cases (lookup (key org id) m)) [
    | inl missing ↦ rw (missing_unchanged now org id m missing).2 a
    | inr (h, e) ↦ rw (get-stores now org id m e) (expired-IsKeyed e)
  ]

place-IsKeyed : (now : Time) (h : Hold) (m : Holds) → IsKeyed m → IsKeyed (place now h m)
unfolding place
place-IsKeyed now h m a = elim (Option-cases (lookup (own_key h) m)) [
  | inl missing ↦ rw (missing, place) (IsKeyed-insert (own_key h) _ m a refl)
  | inr (old, e) ↦ rw (e, place) a
]

expire_loop-IsKeyed :
    (now limit count : ℕ) (m : Holds) → IsKeyed m → IsKeyed (expire_loop now limit count m).1
unfolding expire_loop
expire_loop-IsKeyed now limit count [] a = tt
expire_loop-IsKeyed now limit count ((k, h) ∷ m) a = ground (
  arith,
  expire_loop-IsKeyed now limit count m a.1,
  expire_loop-IsKeyed now limit (suc count) m a.1,
)

-- Every call keeps the entries under the keys of their holds.
pub apply-IsKeyed : (op : Op) (m : Holds) → IsKeyed m → IsKeyed (apply op m).1
unfolding apply expire_due
apply-IsKeyed (place_op now h) m a = place-IsKeyed now h m a
apply-IsKeyed (capture_op now org id) m a = capture-IsKeyed now org id m a
apply-IsKeyed (void_op now org id) m a = void-IsKeyed now org id m a
apply-IsKeyed (get_op now org id) m a = get-IsKeyed now org id m a
apply-IsKeyed (expire_op now limit) m a = expire_loop-IsKeyed now limit 0 m a
