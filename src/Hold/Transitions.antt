-- ===== src/Hold/Transitions.antt =====
-- The life of a hold: histories of calls of the ledger, and the transitions of a stored hold as a
-- relation.
use mathlib.Core.Path.{subst}
use borges_labs.Base.{
  ℕ, suc, ◌≡◌, refl, sym, ap, ◌∙◌, ◌⊎◌, inl, inr, Bool, true, false, Option, none, some, List, [],
  ◌∷◌, ◌++◌, Str, arith, str_eq, ◌&&◌, not, str_eq_iff, lookup, insert, lookup-insert,
  if◌then◌else◌, Option-cases, Bool-cases, ltb, leb,
}
use borges_labs.Clock.{Time, is_zero}
use borges_labs.Hold.{
  State, held, captured, voided, expired, Hold, not_found, Returned, ok, err, key, Holds, or_held,
  place, is_due, expire, resolve, capture, capture_switch, void, void_switch, get, expire_loop,
  expire_due,
}

-- The calls of the store's methods that touch one decision, and the sweep over all.
pub data Op : Type 0 where
  place_op : Time → Hold → Op
  capture_op void_op get_op : Time → Str → Str → Op
  expire_op : Time → ℕ → Op

-- The store after a call, and the holds whose reservation the call released: the answer
-- `released` of `Void`, and the holds that `ExpireDue` returns.
abbrev pub freed_by : Returned (Hold × Bool) → List Hold
freed_by (ok (h, true)) = h ∷ []
freed_by (ok (h, false)) = []
freed_by (err e) = []

unfoldable pub apply : Op → Holds → List Hold × Holds
apply (place_op now h) m = ([], place now h m)
apply (capture_op now org id) m = ([], (capture now org id m).1)
apply (void_op now org id) m = (freed_by (void now org id m).0, (void now org id m).1)
apply (get_op now org id) m = ([], (get now org id m).1)
apply (expire_op now limit) m = expire_due now limit m

unfoldable pub run : List Op → Holds → List Hold × Holds
run [] m = ([], m)
run (op ∷ ops) m = let step = apply op m in let rest = run ops step.1 in (step.0 ++ rest.0, rest.1)

-- The transitions of a stored hold in one call; a void of an overdue hold makes two.
infix 40 ◌⟶◌
pub data ◌⟶◌ : State → State → Type 0 where
  stay : {s : State} → s ⟶ s
  to_captured : held ⟶ captured
  to_voided : held ⟶ voided
  to_expired : held ⟶ expired
  acknowledged : expired ⟶ voided

-- The hold is still stored, in a state that one call may leave it in.
abbrev pub Moves : State → Option Hold → Type 0
Moves s o = (h : Hold) × (o ≡ some h) × (s ⟶ h.state)

ruleset edges = (stay, to_captured, to_voided, to_expired, acknowledged)

capture-edge :
    (now : Time) (h : Hold)
    → h.state ⟶ (capture_switch (expire now h).state now (expire now h)).1.state
unfolding expire is_due
capture-edge now h = grind (arith, edges)

void-edge :
    (now : Time) (h : Hold)
    → h.state ⟶ (void_switch (expire now h).state now (expire now h)).1.state
unfolding expire is_due
void-edge now h = grind (arith, edges)

expire-edge : (now : Time) (h : Hold) → h.state ⟶ (expire now h).state
unfolding expire is_due
expire-edge now h = grind (arith, edges)

same_hold :
    (k j : Str) (m : Holds) {a b : Hold} → lookup k m ≡ some a → lookup j m ≡ some b → k ≡ j → a ≡ b
same_hold k j m e l h = cc

-- Writing a hold at a key, seen from another key or from the same.
Moves-insert :
    (k j : Str) (old new : Hold) (m : Holds) {h : Hold}
    → lookup k m ≡ some old
    → old.state ⟶ new.state
    → lookup j m ≡ some h
    → Moves h.state (lookup j (insert k new m))
Moves-insert k j old new m {h} e s l = elim (Bool-cases (str_eq k j)) [
  | inl same ↦ (
    new,
    rw (lookup-insert, same),
    subst (λ (x : Hold). x.state ⟶ new.state) (same_hold k j m e l ((str_eq_iff k j).0 same)) s,
  )
  | inr differs ↦ (h, rw (lookup-insert, differs) l, stay)
]

-- Writing twice at a key is writing once, for any later reading.
lookup-insert_twice :
    (k j : Str) (a b : Hold) (m : Holds)
    → lookup j (insert k b (insert k a m)) ≡ lookup j (insert k b m)
lookup-insert_twice k j a b m =
    ground (arith, lookup-insert k j b (insert k a m), lookup-insert k j a m, lookup-insert k j b m)

-- What each method stores for a decision that it finds.
pub capture-stores :
    (now : Time) (org id : Str) (m : Holds) {h : Hold}
    → lookup (key org id) m ≡ some h
    → capture now org id m ≡ (
      (capture_switch (expire now h).state now (expire now h)).0,
      insert
          (key org id)
          (capture_switch (expire now h).state now (expire now h)).1
          (insert (key org id) (expire now h) m),
    )
unfolding capture resolve
capture-stores now org id m e = ground arith

pub void-stores :
    (now : Time) (org id : Str) (m : Holds) {h : Hold}
    → lookup (key org id) m ≡ some h
    → void now org id m ≡ (
      (void_switch (expire now h).state now (expire now h)).0,
      insert
          (key org id)
          (void_switch (expire now h).state now (expire now h)).1
          (insert (key org id) (expire now h) m),
    )
unfolding void resolve
void-stores now org id m e = ground arith

pub get-stores :
    (now : Time) (org id : Str) (m : Holds) {h : Hold}
    → lookup (key org id) m ≡ some h
    → (get now org id m).1 ≡ insert (key org id) (expire now h) m
unfolding get resolve
get-stores now org id m e = ground arith

pub missing_unchanged :
    (now : Time) (org id : Str) (m : Holds)
    → lookup (key org id) m ≡ none
    → (capture now org id m ≡ (err not_found, m))
      × (void now org id m ≡ (err not_found, m))
      × (get now org id m ≡ (err not_found, m))
unfolding capture void get resolve
missing_unchanged now org id m e = (ground arith, ground arith, ground arith)

capture-Moves :
    (now : Time) (org id j : Str) (m : Holds) {h : Hold}
    → lookup j m ≡ some h
    → Moves h.state (lookup j (capture now org id m).1)
capture-Moves now org id j m {h} l = elim (Option-cases (lookup (key org id) m)) [
  | inl missing ↦ (h, ap (λ x. lookup j x.1) (missing_unchanged now org id m missing).0 ∙ l, stay)
  | inr (old, e) ↦
      rw (capture-stores now org id m e, lookup-insert_twice)
        (Moves-insert (key org id) j old _ m e (capture-edge now old) l)
]

void-Moves :
    (now : Time) (org id j : Str) (m : Holds) {h : Hold}
    → lookup j m ≡ some h
    → Moves h.state (lookup j (void now org id m).1)
void-Moves now org id j m {h} l = elim (Option-cases (lookup (key org id) m)) [
  | inl missing ↦ (h, ap (λ x. lookup j x.1) (missing_unchanged now org id m missing).1 ∙ l, stay)
  | inr (old, e) ↦
      rw (void-stores now org id m e, lookup-insert_twice)
        (Moves-insert (key org id) j old _ m e (void-edge now old) l)
]

get-Moves :
    (now : Time) (org id j : Str) (m : Holds) {h : Hold}
    → lookup j m ≡ some h
    → Moves h.state (lookup j (get now org id m).1)
get-Moves now org id j m {h} l = elim (Option-cases (lookup (key org id) m)) [
  | inl missing ↦ (h, ap (λ x. lookup j x.1) (missing_unchanged now org id m missing).2 ∙ l, stay)
  | inr (old, e) ↦
      rw (get-stores now org id m e) (Moves-insert (key org id) j old _ m e (expire-edge now old) l)
]

pub place-kept :
    (now : Time) (new : Hold) (j : Str) (m : Holds) {h : Hold}
    → lookup j m ≡ some h
    → lookup j (place now new m) ≡ some h
unfolding place
place-kept now new j m l = ground (
  arith,
  str_eq_iff (key new.org_id new.decision_id) j,
  lookup-insert (key new.org_id new.decision_id) j
      (record new {
        state = or_held new.state;
        created_at = if is_zero new.created_at then now else new.created_at;
      })
      m,
)

unfoldable pub expired_if : Bool → Hold → Hold
expired_if true h = record h { state = expired }
expired_if false h = h

-- A sweep leaves a stored hold alone, or moves a due one to expired.
pub expire_loop-lookup :
    (now : Time) (limit count : ℕ) (j : Str) (m : Holds) {h : Hold}
    → lookup j m ≡ some h
    → (swept : Bool) × (lookup j (expire_loop now limit count m).1 ≡ some (expired_if swept h))
      × ((swept ≡ false) ⊎ (is_due now h ≡ true))
unfolding expire_loop lookup expired_if
expire_loop-lookup now limit count j [] l = cc
expire_loop-lookup now limit count j ((k, g) ∷ m) {h} l = elim (Bool-cases (str_eq k j)) [
  | inl same ↦ (not (ltb 0 limit && leb limit count) && is_due now g, ground arith, ground arith)
  | inr differs ↦ elim (Bool-cases (ltb 0 limit && leb limit count)) [
    | inl full ↦ (false, ground arith, inl refl)
    | inr more ↦ elim (Bool-cases (is_due now g)) [
      | inl due ↦
          let (swept, stored, reason) =
            expire_loop-lookup now limit (suc count) j m {h = h} (ground arith) in
          (swept, ground arith, reason)
      | inr on_time ↦
          let (swept, stored, reason) =
            expire_loop-lookup now limit count j m {h = h} (ground arith) in
          (swept, ground arith, reason)
    ]
  ]
]

swept-edge :
    (now : Time) (swept : Bool) (h : Hold)
    → (swept ≡ false) ⊎ (is_due now h ≡ true)
    → h.state ⟶ (expired_if swept h).state
unfolding expired_if is_due
swept-edge now swept h r = grind (arith, edges)

-- Whatever the call, a hold that is stored stays stored, in a state that the transitions of the
-- documented life cycle allow.
pub apply-⟶ :
    (op : Op) (j : Str) (m : Holds) {h : Hold}
    → lookup j m ≡ some h
    → Moves h.state (lookup j (apply op m).1)
unfolding apply expire_due
apply-⟶ (place_op now new) j m {h} l = (h, place-kept now new j m l, stay)
apply-⟶ (capture_op now org id) j m l = capture-Moves now org id j m l
apply-⟶ (void_op now org id) j m l = void-Moves now org id j m l
apply-⟶ (get_op now org id) j m l = get-Moves now org id j m l
apply-⟶ (expire_op now limit) j m {h} l =
    let (swept, stored, reason) = expire_loop-lookup now limit 0 j m l in
    (expired_if swept h, stored, swept-edge now swept h reason)

-- `captured` and `voided` have no way out.
abbrev pub IsFinal : State → Type 0
IsFinal s = (s ≡ captured) ⊎ (s ≡ voided)

final_edge : {s t : State} → s ⟶ t → IsFinal s → t ≡ s
final_edge stay f = refl
final_edge to_captured f = elim f [ inl e ↦ cc | inr e ↦ cc ]
final_edge to_voided f = elim f [ inl e ↦ cc | inr e ↦ cc ]
final_edge to_expired f = elim f [ inl e ↦ cc | inr e ↦ cc ]
final_edge acknowledged f = elim f [ inl e ↦ cc | inr e ↦ cc ]

-- Over any history of calls, a captured hold stays captured and a voided one voided.
pub run-final :
    (ops : List Op) (j : Str) (m : Holds) {h : Hold}
    → lookup j m ≡ some h
    → IsFinal h.state
    → (h' : Hold) × (lookup j (run ops m).1 ≡ some h') × (h'.state ≡ h.state)
unfolding run
run-final [] j m {h} l f = (h, l, refl)
run-final (op ∷ ops) j m {h} l f =
    let (g, stored, edge) = apply-⟶ op j m l in
    let same = final_edge edge f in
    let (h', kept, e) = run-final ops j (apply op m).1 stored (subst IsFinal (sym same) f) in
    (h', kept, e ∙ same)
