-- ===== src/Hold.antt =====
-- The reservation ledger (services/authorize-svc/internal/hold/hold.go): holds, the interface
-- `Store`, and the in-memory store. A method takes the clock's reading and returns the next map;
-- the loops over the map visit its entries in the list's order, which may be any.
pub mod Sums
pub mod Transitions
pub mod Released
pub mod Keyed
pub mod Once
use borges_labs.Base.{
  ℕ, suc, ◌+◌, Bool, true, false, ◌&&◌, not, Option, none, some, List, [], ◌∷◌, ◌++◌, Str, str,
  str_eq, ltb, leb, if◌then◌else◌, Dict, lookup, insert,
}
use borges_labs.Clock.{Time, is_zero, before}

-- `unset` is the empty text, which `Place` replaces.
pub data State : Type 0 where
  held captured voided expired unset : State

pub record Hold : Type 0 where
  pub decision_id : Str
  pub org_id : Str
  pub agent_id : Str
  pub budget_id : Str
  pub window : Str
  pub window_key : Str
  pub amount : Str
  pub currency : Str
  pub state : State
  pub created_at : Time
  pub expires_at : Time
  pub captured_at : Time
  pub voided_at : Time

-- `ErrNotFound`; a `ConflictError` by its `From` state and its action; and the failure of a
-- store that keeps its rows elsewhere.
pub data Action : Type 0 where
  capture_action void_action : Action

pub data HoldError : Type 0 where
  not_found store_failed : HoldError
  conflict : State → Action → HoldError

pub data Returned (A : Type 0) : Type 0 where
  ok : A → Returned A
  err : HoldError → Returned A

pub record HoldStore (H : Type 0) : Type 0 where
  pub place : Hold → H → Bool × H
  pub capture : Str → Str → H → Returned Hold × H
  pub void : Str → Str → H → Returned (Hold × Bool) × H
  pub get : Str → Str → H → Returned Hold × H
  pub expire_due : Time → ℕ → H → Option (List Hold) × H
  pub list_active : Str → Str → Str → H → Option (List Hold) × H

-- `key(org, id)`
unfoldable pub key : Str → Str → Str
key org id = org ++ (str "|" ++ id)

abbrev pub Holds : Type 0
Holds = Dict Hold

abbrev pub or_held : State → State
or_held unset = held
or_held s = s

unfoldable pub place : Time → Hold → Holds → Holds
place now h m = elim (lookup (key h.org_id h.decision_id) m) [
  | some _ ↦ m
  | none ↦
      insert (key h.org_id h.decision_id)
        (record h {
          state = or_held h.state;
          created_at = if is_zero h.created_at then now else h.created_at;
        })
        m
]

abbrev pub is_held : State → Bool
is_held held = true
is_held _ = false

-- `h.State == StateHeld && !h.ExpiresAt.IsZero() && !now.Before(h.ExpiresAt)`
unfoldable pub is_due : Time → Hold → Bool
is_due now h = is_held h.state && (not (is_zero h.expires_at) && not (before now h.expires_at))

unfoldable pub expire : Time → Hold → Hold
unfolding is_due
expire now h = if is_due now h then record h { state = expired } else h

-- `resolve` writes the expired state back: the entry it returns is the one that is stored.
unfoldable pub resolve : Time → Str → Str → Holds → Option Hold × Holds
unfolding expire
resolve now org id m = elim (lookup (key org id) m) [
  | none ↦ (none, m)
  | some h ↦ (some (expire now h), insert (key org id) (expire now h) m)
]

-- The switch of `Capture` on the resolved hold: the hold to store and the answer.
abbrev pub capture_switch : State → Time → Hold → Returned Hold × Hold
capture_switch held now h = (
  ok (record h { state = captured; captured_at = now }),
  record h { state = captured; captured_at = now },
)
capture_switch captured now h = (ok h, h)
capture_switch voided now h = (err (conflict voided capture_action), h)
capture_switch expired now h = (err (conflict expired capture_action), h)
capture_switch unset now h = (ok h, h)

unfoldable pub capture : Time → Str → Str → Holds → Returned Hold × Holds
unfolding resolve
capture now org id m = elim (resolve now org id m).0 [
  | none ↦ (err not_found, (resolve now org id m).1)
  | some h ↦ (
    (capture_switch h.state now h).0,
    insert (key org id) (capture_switch h.state now h).1 (resolve now org id m).1,
  )
]

abbrev pub void_switch : State → Time → Hold → Returned (Hold × Bool) × Hold
void_switch held now h = (
  ok (record h { state = voided; voided_at = now }, true),
  record h { state = voided; voided_at = now },
)
void_switch voided now h = (ok (h, false), h)
void_switch expired now h = (
  ok (record h { state = voided; voided_at = now }, false),
  record h { state = voided; voided_at = now },
)
void_switch captured now h = (err (conflict captured void_action), h)
void_switch unset now h = (ok (h, false), h)

unfoldable pub void : Time → Str → Str → Holds → Returned (Hold × Bool) × Holds
unfolding resolve
void now org id m = elim (resolve now org id m).0 [
  | none ↦ (err not_found, (resolve now org id m).1)
  | some h ↦ (
    (void_switch h.state now h).0,
    insert (key org id) (void_switch h.state now h).1 (resolve now org id m).1,
  )
]

unfoldable pub get : Time → Str → Str → Holds → Returned Hold × Holds
unfolding resolve
get now org id m = elim (resolve now org id m).0 [
  | none ↦ (err not_found, (resolve now org id m).1)
  | some h ↦ (ok h, (resolve now org id m).1)
]

-- The loop of `ExpireDue`; the count is `len(out)`, and a limit of 0 means no limit.
unfoldable pub expire_loop : Time → ℕ → ℕ → Holds → List Hold × Holds
expire_loop now limit count [] = ([], [])
expire_loop now limit count ((k, h) ∷ m) =
    let stop : List Hold × Holds = ([], (k, h) ∷ m) in
    let taken = expire_loop now limit (suc count) m in
    let take : List Hold × Holds =
      (record h { state = expired } ∷ taken.0, (k, record h { state = expired }) ∷ taken.1) in
    let skipped = expire_loop now limit count m in
    let skip : List Hold × Holds = (skipped.0, (k, h) ∷ skipped.1) in
    if ltb 0 limit && leb limit count then stop else if is_due now h then take else skip

unfoldable pub expire_due : Time → ℕ → Holds → List Hold × Holds
unfolding expire_loop is_due
expire_due now limit m = expire_loop now limit 0 m

abbrev pub is_active : State → Bool
is_active held = true
is_active captured = true
is_active _ = false

unfoldable pub in_window : Str → Str → Str → Hold → Bool
in_window org budget_id window_key h =
    str_eq h.org_id org
    && (str_eq h.budget_id budget_id && (str_eq h.window_key window_key && is_active h.state))

unfoldable pub list_active : Str → Str → Str → Holds → List Hold
unfolding in_window
list_active org budget_id window_key [] = []
list_active org budget_id window_key ((k, h) ∷ m) =
    if in_window org budget_id window_key h
    then h ∷ list_active org budget_id window_key m
    else list_active org budget_id window_key m

-- The store at a reading of its clock.
abbrev pub mem_store : Time → HoldStore Holds
mem_store now = record {
  place = λ h m. (true, place now h m);
  capture = capture now;
  void = void now;
  get = get now;
  expire_due = λ at limit m. (some (expire_due at limit m).0, (expire_due at limit m).1);
  list_active = λ org budget_id window_key m. (some (list_active org budget_id window_key m), m);
}
