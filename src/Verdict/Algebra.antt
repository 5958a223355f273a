-- ===== src/Verdict/Algebra.antt =====
-- The laws of `Combine` (services/authorize-svc/internal/engine/verdict.go).
use mathlib.Core.List.{Perm, Permᴰ}
use mathlib.Core.Logic.{∥∥₁_elim}
use borges_labs.Base.{
  ℕ, ◌≤◌, ◌≡◌, refl, ◌∙◌, ◌≢◌, ◌↔◌, ◌⊎◌, Bool, true, false, ◌||◌, List, [], ◌∷◌, ◌++◌, arith, All,
  any_of, any_of-append, is_empty,
}
use borges_labs.Verdict.{
  Verdict, approve, deny, review, Outcome, satisfied, denied, flagged, unavailable, fail_open,
  PredicateResult, effective_outcome, combine_loop, combine,
}

-- The outcomes of the tests below.
abbrev pub is_denied : Outcome → Bool
is_denied denied = true
is_denied _ = false

abbrev pub is_flagged : Outcome → Bool
is_flagged flagged = true
is_flagged _ = false

abbrev pub denies : PredicateResult → Bool
denies r = is_denied (effective_outcome r)

abbrev pub flags : PredicateResult → Bool
flags r = is_flagged (effective_outcome r)

-- The documented algebra: deny by default, then a deny wins, then a flag.
abbrev pub precedence : Bool → Bool → Bool → Verdict
precedence true any_denied any_flagged = deny
precedence false true any_flagged = deny
precedence false false true = review
precedence false false false = approve

combine_loop_lem :
    (saw_flag : Bool) (rs : List PredicateResult)
    → combine_loop saw_flag rs ≡ precedence false (any_of denies rs) (saw_flag || any_of flags rs)
unfolding combine_loop any_of
combine_loop_lem true [] = refl
combine_loop_lem false [] = refl
combine_loop_lem saw_flag (r ∷ rs) =
    ground (arith, combine_loop_lem saw_flag rs, combine_loop_lem true rs)

-- The loop computes the documented precedence: no results deny; else any result that counts as
-- denied denies; else any result that counts as flagged asks for review; else it approves.
pub combine-precedence :
    (rs : List PredicateResult)
    → combine rs ≡ precedence (is_empty rs) (any_of denies rs) (any_of flags rs)
unfolding combine
combine-precedence [] = refl
combine-precedence (r ∷ rs) = combine_loop_lem false (r ∷ rs)

any_of-perm :
    (p : PredicateResult → Bool) {xs ys : List PredicateResult}
    → Permᴰ xs ys
    → any_of p xs ≡ any_of p ys
unfolding any_of
any_of-perm p Permᴰ.nil = refl
any_of-perm p (Permᴰ.cons x h) = ground (arith, any_of-perm p h)
any_of-perm p (Permᴰ.swap x y) = ground arith
any_of-perm p (Permᴰ.trans h k) = any_of-perm p h ∙ any_of-perm p k

is_empty-perm : {xs ys : List PredicateResult} → Permᴰ xs ys → is_empty xs ≡ is_empty ys
is_empty-perm Permᴰ.nil = refl
is_empty-perm (Permᴰ.cons x h) = refl
is_empty-perm (Permᴰ.swap x y) = refl
is_empty-perm (Permᴰ.trans h k) = is_empty-perm h ∙ is_empty-perm k

Verdict-set : IsSet Verdict
Verdict-set = hlevel

-- The verdict does not depend on the order in which the predicates were evaluated.
pub combine-perm : {xs ys : List PredicateResult} → Perm xs ys → combine xs ≡ combine ys
combine-perm {xs} {ys} h = ∥∥₁_elim h (Verdict-set _ _) λ d.
    rw (combine-precedence xs, combine-precedence ys)
      (cc (is_empty-perm d, any_of-perm denies d, any_of-perm flags d))

-- How strict a verdict is.
abbrev pub severity : Verdict → ℕ
severity approve = 0
severity review = 1
severity deny = 2

-- More results never make a verdict milder: where both parts have a result, the verdict over
-- both is the stricter of their two verdicts.
pub severity-append :
    (xs ys : List PredicateResult)
    → xs ≢ []
    → ys ≢ []
    → (severity (combine xs) ≤ severity (combine (xs ++ ys)))
      × (severity (combine ys) ≤ severity (combine (xs ++ ys)))
      × ((combine (xs ++ ys) ≡ combine xs) ⊎ (combine (xs ++ ys) ≡ combine ys))
severity-append [] ys h k = absurd (h refl)
severity-append (x ∷ xs) [] h k = absurd (k refl)
severity-append (x ∷ xs) (y ∷ ys) h k = ground (
  arith,
  combine-precedence (x ∷ xs),
  combine-precedence (y ∷ ys),
  combine-precedence (x ∷ xs ++ y ∷ ys),
  any_of-append denies (x ∷ xs) (y ∷ ys),
  any_of-append flags (x ∷ xs) (y ∷ ys),
)

-- A result grants authority: it was satisfied, or it could not complete and its rule is
-- declared fail-open.
abbrev pub Grants : PredicateResult → Type 0
Grants r = (r.outcome ≡ satisfied) ⊎ ((r.outcome ≡ unavailable) × (r.fail_mode ≡ fail_open))

grants : (r : PredicateResult) → denies r ≡ false → flags r ≡ false → Grants r
unfolding effective_outcome
grants r h k = ground arith

Grants-passes : (r : PredicateResult) → Grants r → (denies r ≡ false) × (flags r ≡ false)
unfolding effective_outcome
Grants-passes r h = ground arith

All-grant :
    (rs : List PredicateResult) → any_of denies rs ≡ false → any_of flags rs ≡ false → All Grants rs
unfolding any_of
All-grant [] h k = tt
All-grant (r ∷ rs) h k =
    (grants r (ground arith) (ground arith), All-grant rs (ground arith) (ground arith))

none_objects :
    (rs : List PredicateResult)
    → All Grants rs
    → (any_of denies rs ≡ false) × (any_of flags rs ≡ false)
unfolding any_of
none_objects [] h = (refl, refl)
none_objects (r ∷ rs) h = ground (arith, Grants-passes r h.0, none_objects rs h.1)

-- A verdict is APPROVE exactly when there is a result and each one was satisfied or, unable to
-- complete, is declared fail-open.
pub combine-approve_iff :
    (rs : List PredicateResult) → (combine rs ≡ approve) ↔ ((rs ≢ []) × All Grants rs)
combine-approve_iff [] = (λ h. cc (combine-precedence [], h), λ h. absurd (h.0 refl))
combine-approve_iff (r ∷ rs) = (
  λ h. (λ e. cc, All-grant (r ∷ rs) (approves h).0 (approves h).1),
  λ h.
      rw
        (combine-precedence (r ∷ rs), (none_objects (r ∷ rs) h.1).0, (none_objects (r ∷ rs) h.1).1),
)
  where
    approves :
        combine (r ∷ rs) ≡ approve
        → (any_of denies (r ∷ rs) ≡ false) × (any_of flags (r ∷ rs) ≡ false)
    approves h = ground (arith, combine-precedence (r ∷ rs))

-- A result that counts as denied makes the verdict DENY, wherever it stands.
pub combine-deny :
    (xs : List PredicateResult) (r : PredicateResult) (ys : List PredicateResult)
    → denies r ≡ true
    → combine (xs ++ r ∷ ys) ≡ deny
combine-deny xs r ys h =
    rw (combine-precedence (xs ++ r ∷ ys), any_of-append denies xs (r ∷ ys))
      (unfold any_of in ground arith)
