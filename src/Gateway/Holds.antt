-- ===== src/Gateway/Holds.antt =====
-- POST /v1/authorize/{id}/capture and void (services/authorize-svc/internal/server/holds.go) for an
-- authenticated caller. The titles and details of a problem are left out.
use Prim.Native.String.{String}
use borges_labs.Base.{
  ℕ, Bool, true, ◌&&◌, ◌||◌, Option, none, some, [], ◌∷◌, Str, length, leb, ◌==◌, if◌then◌else◌,
}
use borges_labs.Clock.{Platform, is_zero}
use borges_labs.Hold.{State, Hold, HoldError, not_found, store_failed, conflict, Returned, ok, err}

-- `budgetLifecycle`
pub record Lifecycle (S : Type 0) : Type 0 where
  pub capture : Str → Str → S → Returned Hold × S
  pub void : Str → Str → S → Returned Hold × S

-- A letter of Crockford's base 32: no I, L, O or U.
is_base32 : ℕ → Bool
is_base32 c =
    (leb 48 c && leb c 57)
    || ((leb 65 c && leb c 72)
        || ((leb 74 c && leb c 75)
            || ((leb 77 c && leb c 78) || ((leb 80 c && leb c 84) || (leb 86 c && leb c 90)))))

all_base32 : Str → Bool
unfolding is_base32
all_base32 [] = true
all_base32 (c ∷ s) = is_base32 c && all_base32 s

-- `reULID`
unfoldable pub is_ulid : Str → Bool
unfolding all_base32
is_ulid s = length s == 26 && all_base32 s

-- `holdResponse`; an empty text is a field that is left out.
pub record HoldResponse : Type 0 where
  pub decision_id : Str
  pub state : State
  pub budget_id : Str
  pub amount : Str
  pub currency : Str
  pub expires_at : Str

unfoldable pub to_hold_response : Platform → Hold → HoldResponse
to_hold_response platform h = record {
  decision_id = h.decision_id;
  state = h.state;
  budget_id = h.budget_id;
  amount = h.amount;
  currency = h.currency;
  expires_at = if is_zero h.expires_at then [] else platform.format_time h.expires_at;
}

-- A problem by its status and code, or the hold.
pub data HoldAnswer : Type 0 where
  refused : ℕ → String → HoldAnswer
  settled : HoldResponse → HoldAnswer

-- `writeHoldError`
abbrev pub write_hold_error : HoldError → HoldAnswer
write_hold_error not_found = refused 404 "not_found"
write_hold_error (conflict from action) = refused 409 "conflict"
write_hold_error store_failed = refused 503 "internal_error"

abbrev pub hold_answer : Platform → Returned Hold → HoldAnswer
hold_answer platform (ok h) = settled (to_hold_response platform h)
hold_answer platform (err e) = write_hold_error e

module _ {S : Type 0} (platform : Platform) where
  -- `transitionHold`, for the organisation of the caller
  unfoldable pub transition_hold :
      Option (Lifecycle S)
      → (Lifecycle S → Str → Str → S → Returned Hold × S)
      → Str
      → Str
      → S
      → HoldAnswer × S
  transition_hold none fn org id s = (refused 503 "internal_error", s)
  transition_hold (some budget) fn org id s =
      let step = fn budget org id s in
      if is_ulid id then (hold_answer platform step.0, step.1) else (refused 404 "not_found", s)

  unfoldable pub handle_capture : Option (Lifecycle S) → Str → Str → S → HoldAnswer × S
  unfolding transition_hold
  handle_capture budget org id s = transition_hold budget (λ b. b.capture) org id s

  unfoldable pub handle_void : Option (Lifecycle S) → Str → Str → S → HoldAnswer × S
  unfolding transition_hold
  handle_void budget org id s = transition_hold budget (λ b. b.void) org id s
