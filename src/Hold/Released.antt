-- ===== src/Hold/Released.antt =====
-- Calls of the ledger that are repeated.

use borges_labs.Base.{
  ◌≡◌, sym, ap, ◌∙◌, inl, inr, Bool, false, some, Str, arith, lookup, lookup-insert_self,
  Option-cases,
}
use borges_labs.Clock.{Time}
use borges_labs.Hold.{
  Hold, ok, key, Holds, is_due, is_held, expire, capture, capture_switch, void, void_switch,
}
use borges_labs.Hold.Transitions.{capture-stores, void-stores, missing_unchanged}

-- A hold that is captured, or voided, does not fall due.
settled : (now : Time) (h : Hold) → is_held h.state ≡ false → expire now h ≡ h
unfolding expire is_due
settled now h e = ground arith

captured_answer :
    (now : Time) (g : Hold) {h : Hold}
    → (capture_switch g.state now g).0 ≡ ok h
    → ((capture_switch g.state now g).1 ≡ h)
      × (is_held h.state ≡ false)
      × (capture_switch h.state now h ≡ (ok h, h))
captured_answer now g e = (ground arith, ground arith, ground arith)

voided_answer :
    (now : Time) (g : Hold) {h : Hold} {released : Bool}
    → (void_switch g.state now g).0 ≡ ok (h, released)
    → ((void_switch g.state now g).1 ≡ h)
      × (is_held h.state ≡ false)
      × (void_switch h.state now h ≡ (ok (h, false), h))
voided_answer now g e = (ground arith, ground arith, ground arith)

stored_at :
    (now : Time) (org id : Str) (m : Holds) {h : Hold}
    → (capture now org id m).0 ≡ ok h
    → (lookup (key org id) (capture now org id m).1 ≡ some h)
      × (is_held h.state ≡ false)
      × (capture_switch h.state now h ≡ (ok h, h))
stored_at now org id m {h} e = elim (Option-cases (lookup (key org id) m)) [
  | inl missing ↦ absurd (cc (missing_unchanged now org id m missing).0)
  | inr (old, found) ↦
      let all =
        captured_answer now (expire now old) {h = h}
          (sym (ap (λ x. x.0) (capture-stores now org id m found)) ∙ e) in
      (rw (capture-stores now org id m found, lookup-insert_self) (ap some all.0), all.1, all.2)
]

capture_switch-later :
    (now later : Time) (h : Hold)
    → capture_switch h.state now h ≡ (ok h, h)
    → is_held h.state ≡ false
    → (capture_switch h.state later h).0 ≡ ok h
capture_switch-later now later h e n = ground arith

void_switch-later :
    (now later : Time) (h : Hold)
    → void_switch h.state now h ≡ (ok (h, false), h)
    → is_held h.state ≡ false
    → (void_switch h.state later h).0 ≡ ok (h, false)
void_switch-later now later h e n = ground arith

-- A capture that succeeded succeeds again, at any later time, with the same hold.
pub capture_again :
    (now later : Time) (org id : Str) (m : Holds) {h : Hold}
    → (capture now org id m).0 ≡ ok h
    → (capture later org id (capture now org id m).1).0 ≡ ok h
capture_again now later org id m {h} e =
    let (stored, done, repeat) = stored_at now org id m e in
    ap (λ x. x.0) (capture-stores later org id _ stored)
    ∙ ap (λ (x : Hold). (capture_switch x.state later x).0) (settled later h done)
    ∙ capture_switch-later now later h repeat done

-- A void that succeeded succeeds again, at any later time, with the same hold, and the second
-- one reports that it released nothing.
pub void_again :
    (now later : Time) (org id : Str) (m : Holds) {h : Hold} {released : Bool}
    → (void now org id m).0 ≡ ok (h, released)
    → (void later org id (void now org id m).1).0 ≡ ok (h, false)
void_again now later org id m {h} {released} e = elim (Option-cases (lookup (key org id) m)) [
  | inl missing ↦ absurd (cc (missing_unchanged now org id m missing).1)
  | inr (old, found) ↦
      let all =
        voided_answer now (expire now old) {h = h} {released = released}
          (sym (ap (λ x. x.0) (void-stores now org id m found)) ∙ e) in
      let stored : lookup (key org id) (void now org id m).1 ≡ some h =
        rw (void-stores now org id m found, lookup-insert_self) (ap some all.0) in
      ap (λ x. x.0) (void-stores later org id _ stored)
      ∙ ap (λ (x : Hold). (void_switch x.state later x).0) (settled later h all.1)
      ∙ void_switch-later now later h all.2 all.1
]
