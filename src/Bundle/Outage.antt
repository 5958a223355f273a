-- ===== src/Bundle/Outage.antt =====
-- The provider when its store fails, and after a publication.
use borges_labs.Base.{
  ◌≡◌, refl, ap, ◌∙◌, ◌⊎◌, Bool, true, false, Option, none, some, List, [], ◌∷◌, map, Str, arith,
  inl, inr, lookup, insert, lookup-insert_self,
}
use borges_labs.Policies.{Policy}
use borges_labs.Policies as Engine
use borges_labs.Authoring.{BundleRef, Found, Found-cases, ok, err}
use borges_labs.Loader.{PredicateDoc}
use borges_labs.Bundle.{
  Source, Entry, Entries, store_entry, compile_ref, keep, load, active, invalidate, refresh_org,
  refresh_each, refresh_all,
}

abbrev pub is_error : {A : Type 0} → Found A → Bool
is_error (ok a) = false
is_error (err e) = true

Result-cases :
    {A : Type 0} (r : Engine.Result A)
    → ((e : Engine.Error) × (r ≡ Engine.err e)) ⊎ ((a : A) × (r ≡ Engine.ok a))
Result-cases (Engine.err e) = inl (e, refl)
Result-cases (Engine.ok a) = inr (a, refl)

module _ {W : Type 0} (content_version : List PredicateDoc → Option Str) (src : Source W) where
  refresh_org_down :
      (org : Str) (cache : Entries) (w : W)
      → is_error (src.active_bundle org w).0 ≡ true
      → (refresh_org content_version src org (cache, w)).0 ≡ cache
  unfolding refresh_org
  refresh_org_down org cache w down = ground arith

  refresh_each_down :
      (orgs : List Str) (cache : Entries) (w : W)
      → ((org : Str) (w : W) → is_error (src.active_bundle org w).0 ≡ true)
      → (refresh_each content_version src orgs (cache, w)).0 ≡ cache
  unfolding refresh_each
  refresh_each_down [] cache w down = refl
  refresh_each_down (org ∷ orgs) cache w down =
      let after = refresh_org content_version src org (cache, w) in
      refresh_each_down orgs after.0 after.1 down ∙ refresh_org_down org cache w (down org w)

  -- While the store answers no request for an active bundle, a refresh leaves every cached
  -- bundle in place, and a request for an organisation that is cached is answered with its last
  -- policy.
  pub refresh_all_down :
      (cache : Entries) (w : W) (org : Str) {e : Entry}
      → ((org : Str) (w : W) → is_error (src.active_bundle org w).0 ≡ true)
      → lookup org cache ≡ some e
      → let after = refresh_all content_version src (cache, w) in
        (after.0 ≡ cache) × ((active content_version src org after).0 ≡ Engine.ok e.policy)
  unfolding refresh_all active
  refresh_all_down cache w org {e} down warm =
      let same = refresh_each_down (map (λ e. e.0) cache) cache w down in
      (same, ground (arith, same))

  -- What a load that succeeds has read, made and stored.
  load_ok :
      (org : Str) (cache : Entries) (w : W) (ref : BundleRef) (pol : Policy)
      → (src.active_bundle org w).0 ≡ ok ref
      → (compile_ref content_version src ref (src.active_bundle org w).1).0 ≡ Engine.ok pol
      → (load content_version src org (cache, w)).1.0
        ≡ insert org (record { hash = ref.version_hash; policy = pol }) cache
  unfolding load keep store_entry
  load_ok org cache w ref pol e made = rw (load, e, made) refl

  invalidate-none :
      (org : Str) (cache : Entries) (w : W)
      → (invalidate content_version src org (cache, w)).0 ≡ none
      → (ref : BundleRef) × (pol : Policy) × ((src.active_bundle org w).0 ≡ ok ref)
        × ((compile_ref content_version src ref (src.active_bundle org w).1).0 ≡ Engine.ok pol)
  unfolding invalidate load
  invalidate-none org cache w e = elim (Found-cases (src.active_bundle org w).0) [
    | inl (x, failed_read) ↦ absurd (ground arith)
    | inr (ref, read) ↦
        elim (Result-cases (compile_ref content_version src ref (src.active_bundle org w).1).0) [
          | inl (x, failed_compile) ↦ absurd (ground arith)
          | inr (pol, made) ↦ (ref, pol, read, made)
        ]
  ]

  active_warm :
      (org : Str) (cache : Entries) (w : W) {e : Entry}
      → lookup org cache ≡ some e
      → active content_version src org (cache, w) ≡ (Engine.ok e.policy, (cache, w))
  unfolding active
  active_warm org cache w e = ground arith

  -- After an invalidation that reports no error, requests for the organisation are answered from
  -- the cache with the policy that the store's active bundle, as read then, compiles to.
  pub invalidate-active :
      (org : Str) (cache : Entries) (w : W)
      → (invalidate content_version src org (cache, w)).0 ≡ none
      → let after = (invalidate content_version src org (cache, w)).1 in
        (ref : BundleRef) × (pol : Policy) × ((src.active_bundle org w).0 ≡ ok ref)
        × ((compile_ref content_version src ref (src.active_bundle org w).1).0 ≡ Engine.ok pol)
        × (active content_version src org after ≡ (Engine.ok pol, after))
  unfolding invalidate
  invalidate-active org cache w e =
      let (ref, pol, read, made) = invalidate-none org cache w e in
      let stored = load_ok org cache w ref pol read made in
      (
        ref,
        pol,
        read,
        made,
        active_warm org _ _ (
            ap (lookup org) stored
            ∙ lookup-insert_self org (record { hash = ref.version_hash; policy = pol }) cache),
      )
