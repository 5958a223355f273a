-- ===== src/Gateway/Settled.antt =====
-- Captures and voids over HTTP that are sent again.
use borges_labs.Base.{◌≡◌, refl, sym, ap, ◌∙◌, inl, inr, Bool, true, false, some, Str, Bool-cases}
use borges_labs.Clock.{Time, Platform}
use borges_labs.Counter.{Counter}
use borges_labs.Hold.{
  Hold, Holds, HoldError, Returned, ok, err, conflict, not_found, store_failed, void, mem_store,
}
use borges_labs.Hold.Released.{void_again}
use borges_labs.Reserver.{capture_hold, void_hold}
use borges_labs.Gateway.Holds.{
  Lifecycle, HoldAnswer, HoldResponse, refused, settled, hold_answer, is_ulid, transition_hold,
  handle_void,
}

module _ {S : Type 0} (platform : Platform) (counter : Counter S) where
  -- `Reserver` over the in-memory ledger at a reading of its clock
  abbrev pub reserver_at : Time → Lifecycle (S × Holds)
  reserver_at now = record {
    capture = capture_hold counter (mem_store now);
    void = void_hold counter (mem_store now);
  }

  abbrev pub void_at : Time → Str → Str → S × Holds → HoldAnswer × (S × Holds)
  void_at now org id s = handle_void platform (some (reserver_at now)) org id s

  given_hold :
      (r : Returned Hold) {body : HoldResponse}
      → hold_answer platform r ≡ settled body
      → (h : Hold) × (r ≡ ok h)
  given_hold (ok h) e = (h, refl)
  given_hold (err not_found) e = absurd (cc e)
  given_hold (err store_failed) e = absurd (cc e)
  given_hold (err (conflict from action)) e = absurd (cc e)

  void_hold-value :
      (now : Time) (org id : Str) (s : S) (m : Holds) {h : Hold} {released : Bool}
      → (void now org id m).0 ≡ ok (h, released)
      → (void_hold counter (mem_store now) org id (s, m)).0 ≡ ok h
  unfolding void_hold
  void_hold-value now org id s m known = rw known refl

  void_hold-error :
      (now : Time) (org id : Str) (s : S) (m : Holds) {x : HoldError}
      → (void now org id m).0 ≡ err x
      → (void_hold counter (mem_store now) org id (s, m)).0 ≡ err x
  unfolding void_hold
  void_hold-error now org id s m known = rw known refl

  void_hold-ok :
      (now : Time) (org id : Str) (s : S) (m : Holds) (r : Returned (Hold × Bool)) {h : Hold}
      → (void now org id m).0 ≡ r
      → (void_hold counter (mem_store now) org id (s, m)).0 ≡ ok h
      → (released : Bool) × (r ≡ ok (h, released))
  void_hold-ok now org id s m (ok (g, released)) known e =
      (released, cc (sym (void_hold-value now org id s m known) ∙ e))
  void_hold-ok now org id s m (err x) known e =
      absurd (cc (sym (void_hold-error now org id s m known) ∙ e))

  void_hold-kept :
      (now : Time) (org id : Str) (s : S) (m : Holds) {h : Hold}
      → (void now org id m).0 ≡ ok (h, false)
      → (void_hold counter (mem_store now) org id (s, m)).1.0 ≡ s
  unfolding void_hold
  void_hold-kept now org id s m e = rw e refl

  void_at-ulid :
      (now : Time) (org id : Str) (s : S × Holds)
      → is_ulid id ≡ true
      → let r = void_hold counter (mem_store now) org id s in
        void_at now org id s ≡ (hold_answer platform r.0, r.1)
  unfolding handle_void transition_hold
  void_at-ulid now org id s well = rw well refl

  void_at-odd :
      (now : Time) (org id : Str) (s : S × Holds)
      → is_ulid id ≡ false
      → void_at now org id s ≡ (refused 404 "not_found", s)
  unfolding handle_void transition_hold
  void_at-odd now org id s odd = rw odd refl

  -- A void that was answered with the hold is answered in the same way when it is sent again, at
  -- any later time, and the second one leaves the counters as they are.
  pub handle_void-again :
      (now later : Time) (org id : Str) (s : S) (m : Holds) (body : HoldResponse)
      → (void_at now org id (s, m)).0 ≡ settled body
      → let first = void_at now org id (s, m) in
        let second = void_at later org id first.1 in
        (second.0 ≡ settled body) × (second.1.0 ≡ first.1.0)
  unfolding void_hold
  handle_void-again now later org id s m body e = elim (Bool-cases (is_ulid id)) [
    | inr odd ↦ absurd (cc (sym (ap (λ x. x.0) (void_at-odd now org id (s, m) odd)) ∙ e))
    | inl well ↦
        let answer = sym (ap (λ x. x.0) (void_at-ulid now org id (s, m) well)) ∙ e in
        let (h, done) = given_hold _ answer in
        let (released, once) = void_hold-ok now org id s m _ refl done in
        let twice = void_again now later org id m once in
        rw (void_at-ulid now org id (s, m) well, void_at-ulid later org id _ well)
          (
            ap (hold_answer platform) (void_hold-value later org id _ _ twice ∙ sym done) ∙ answer,
            void_hold-kept later org id _ _ twice,
          )
  ]
