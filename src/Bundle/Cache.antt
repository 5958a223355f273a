-- ===== src/Bundle/Cache.antt =====
-- Histories of the provider over the control plane's store: writes, requests, invalidations and
-- refreshes in any order.
use mathlib.Core.Path.{subst}
use borges_labs.Base.{
  ◌≡◌, refl, sym, ap, ◌∙◌, Option, none, some, List, [], ◌∷◌, map, Str, arith, str_eq, Bool-cases,
  Option-cases, inl, inr, lookup, lookup-insert,
}
use borges_labs.Policies.{Policy, Error, load_failed, no_active_bundle}
use borges_labs.Policies as Engine
use borges_labs.Authoring.{
  Version, BundleRef, MemStore, Found, Found-cases, ok, err, get_version, get_active_bundle,
}
use borges_labs.Authoring.Immutable.{Write, apply, apply-keeps}
use borges_labs.Loader.{PredicateDoc, loaded}
use borges_labs.Bundle.{
  compile, mem_source, Entry, Entries, store_entry, compile_ref, compiled, keep, load, active,
  invalidate, unchanged, refresh_org, refresh_each, refresh_all,
}

some-inj : {A : Type 0} {x y : A} → some x ≡ some y → x ≡ y
some-inj {x = x} h = ap (λ o. elim o [ none ↦ x | some z ↦ z ]) h

module _ (content_version : List PredicateDoc → Option Str) where
  -- The entry holds the compilation of a version that the store has under the entry's hash.
  abbrev pub IsPublished : MemStore → Entry → Type 0
  IsPublished m e =
      (org : Str) × (policy_id : Str) × (v : Version) × (get_version org policy_id e.hash m ≡ ok v)
      × (compile content_version v ≡ loaded e.policy)

  abbrev pub AllPublished : Entries × MemStore → Type 0
  AllPublished (cache, m) = (org : Str) (e : Entry) → lookup org cache ≡ some e → IsPublished m e

  compiled_ok :
      (f : Found Version) (pol : Policy)
      → compiled content_version mem_source f ≡ Engine.ok pol
      → (v : Version) × (f ≡ ok v) × (compile content_version v ≡ loaded pol)
  unfolding compiled
  compiled_ok (err x) pol e = cc
  compiled_ok (ok v) pol e = (v, refl, ground arith)

  keep-AllPublished :
      (org hash : Str) (r : Engine.Result Policy) (cache : Entries) (m : MemStore)
      → ((pol : Policy) → r ≡ Engine.ok pol → IsPublished m (record { hash = hash; policy = pol }))
      → AllPublished (cache, m)
      → AllPublished (keep content_version mem_source org hash r cache, m)
  unfolding keep store_entry
  keep-AllPublished org hash (Engine.err x) cache m new old o e found = old o e found
  keep-AllPublished org hash (Engine.ok pol) cache m new old o e found =
      elim (Bool-cases (str_eq org o)) [
        | inl same ↦
            let it : some (record { hash = hash; policy = pol }) ≡ some e =
              sym (lookup-insert org o (record { hash = hash; policy = pol }) cache ∙ rw same refl)
              ∙ found in
            subst (IsPublished m) (some-inj it) (new pol refl)
        | inr other ↦ old o e (
            sym (lookup-insert org o (record { hash = hash; policy = pol }) cache ∙ rw other refl)
            ∙ found)
      ]

  ref-IsPublished :
      (ref : BundleRef) (m : MemStore) (pol : Policy)
      → (compile_ref content_version mem_source ref m).0 ≡ Engine.ok pol
      → IsPublished m (record { hash = ref.version_hash; policy = pol })
  unfolding compile_ref
  ref-IsPublished ref m pol e =
      let (v, stored, made) =
        compiled_ok (get_version ref.org_id ref.policy_id ref.version_hash m) pol e in
      (ref.org_id, ref.policy_id, v, stored, made)

  load-AllPublished :
      (org : Str) (cache : Entries) (m : MemStore)
      → AllPublished (cache, m)
      → AllPublished (load content_version mem_source org (cache, m)).1
  unfolding load compile_ref
  load-AllPublished org cache m a = elim (Found-cases (get_active_bundle org m)) [
    | inl (x, e) ↦ rw (load, e) a
    | inr (ref, e) ↦
        rw (load, e) (keep-AllPublished org ref.version_hash _ cache m (ref-IsPublished ref m) a)
  ]

  refresh_org-AllPublished :
      (org : Str) (s : Entries × MemStore)
      → AllPublished s
      → AllPublished (refresh_org content_version mem_source org s)
  unfolding refresh_org compile_ref
  refresh_org-AllPublished org (cache, m) a = elim (Found-cases (get_active_bundle org m)) [
    | inl (x, e) ↦ rw (refresh_org, e) a
    | inr (ref, e) ↦
        rw (refresh_org, e)
          (elim (Bool-cases
            (unchanged content_version mem_source (lookup org cache) ref.version_hash)) [
              | inl same ↦ rw same a
              | inr differs ↦
                  rw differs
                    (keep-AllPublished org ref.version_hash _ cache m (ref-IsPublished ref m) a)
            ])
  ]

  refresh_each-AllPublished :
      (orgs : List Str) (s : Entries × MemStore)
      → AllPublished s
      → AllPublished (refresh_each content_version mem_source orgs s)
  unfolding refresh_each
  refresh_each-AllPublished [] s a = a
  refresh_each-AllPublished (org ∷ orgs) s a =
      refresh_each-AllPublished orgs (refresh_org content_version mem_source org s)
        (refresh_org-AllPublished org s a)

  active-AllPublished :
      (org : Str) (cache : Entries) (m : MemStore)
      → AllPublished (cache, m)
      → AllPublished (active content_version mem_source org (cache, m)).1
  unfolding active
  active-AllPublished org cache m a = elim (Option-cases (lookup org cache)) [
    | inl cold ↦ rw (active, cold) (load-AllPublished org cache m a)
    | inr (e, warm) ↦ rw (active, warm) a
  ]

  -- A step of the system: a write to the store, or a call of the provider.
  pub data Step : Type 0 where
    write : Write → Step
    serve invalidated : Str → Step
    refreshed : Step

  unfoldable pub step : Step → Entries × MemStore → Entries × MemStore
  step (write w) (cache, m) = (cache, apply w m)
  step (serve org) s = (active content_version mem_source org s).1
  step (invalidated org) s = (invalidate content_version mem_source org s).1
  step refreshed s = refresh_all content_version mem_source s

  unfoldable pub run : List Step → Entries × MemStore → Entries × MemStore
  run [] s = s
  run (x ∷ xs) s = run xs (step x s)

  step-AllPublished : (x : Step) (s : Entries × MemStore) → AllPublished s → AllPublished (step x s)
  unfolding step invalidate refresh_all
  step-AllPublished (write w) (cache, m) a = λ org e found.
      let (o, policy_id, v, stored, made) = a org e found in
      (o, policy_id, v, apply-keeps w o policy_id e.hash m stored, made)
  step-AllPublished (serve org) (cache, m) a = active-AllPublished org cache m a
  step-AllPublished (invalidated org) (cache, m) a = load-AllPublished org cache m a
  step-AllPublished refreshed (cache, m) a =
      refresh_each-AllPublished (map (λ e. e.0) cache) (cache, m) a

  run_loop : (xs : List Step) (s : Entries × MemStore) → AllPublished s → AllPublished (run xs s)
  unfolding run
  run_loop [] s a = a
  run_loop (x ∷ xs) s a = run_loop xs (step x s) (step-AllPublished x s a)

  -- From an empty cache and any store, after any writes to the store, requests, invalidations
  -- and refreshes, in any order, each cached policy is the compilation of a version that the
  -- store has under the hash that the cache names.
  pub run-AllPublished :
      (xs : List Step) (m : MemStore) {e : Entry} (org : Str)
      → lookup org (run xs ([], m)).0 ≡ some e
      → IsPublished (run xs ([], m)).1 e
  unfolding lookup
  run-AllPublished xs m {e} org found = run_loop xs ([], m) (λ org e found. cc) org e found

compiled_loaded :
    (content_version : List PredicateDoc → Option Str) (v : Version) (pol : Policy)
    → compile content_version v ≡ loaded pol
    → compiled content_version mem_source (ok v) ≡ Engine.ok pol
unfolding compiled
compiled_loaded c v pol made = ground (arith, made)

-- A load of a bundle whose version is stored and compiles.
pub load_served :
    (content_version : List PredicateDoc → Option Str) (org : Str) (cache : Entries) (m : MemStore)
    (ref : BundleRef) (v : Version) (pol : Policy)
    → get_active_bundle org m ≡ ok ref
    → get_version ref.org_id ref.policy_id ref.version_hash m ≡ ok v
    → compile content_version v ≡ loaded pol
    → (load content_version mem_source org (cache, m)).0 ≡ Engine.ok pol
unfolding load compile_ref compiled
load_served c org cache m ref v pol serving stored made =
    rw (load, serving, compile_ref, stored) (compiled_loaded c v pol made)
