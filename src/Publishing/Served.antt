-- ===== src/Publishing/Served.antt =====
-- What the store serves under any history of authoring, publishing and rollback.

use borges_labs.Base.{
  ℕ, ◌+◌, ◌≡◌, ◌≢◌, ◌⊎◌, refl, ap, ◌∙◌, inl, inr, some, List, [], ◌∷◌, ◌++◌, Str, str, arith,
  is_empty, All, Option-cases, Bool-cases,
}
use borges_labs.Clock.{Time}
use borges_labs.Policies as Engine
use borges_labs.Loader.{loaded}
use borges_labs.Authoring.{
  published, Rule, Policy, BundleRef, Version, StoreError, policy_not_found, version_not_found,
  policy_exists, bundle_not_found, store_failed, Found, ok, err, Found-cases, MemStore, empty_store,
  get_policy, update_policy, put_version, get_version, get_active_bundle,
}
use borges_labs.Authoring.Immutable.{
  create_write, update_write, put_write, bundle_write, apply, apply-keeps, put_version-new,
}
use borges_labs.Bundle.{compile, load, mem_source, Entries}
use borges_labs.Bundle.Cache.{load_served}
use borges_labs.Validation.{Document, validate}
use borges_labs.Validation.Servable.{IsKnown, validate-servable, is_empty_nil}
use borges_labs.Publishing.{
  Service, view_of, version_view, content_hash, document_of, point_org_bundle, set_active, activate,
  create, update, update_found, minted, publish_version, publish_valid, publish, restore, rollback,
}
use borges_labs.Publishing.Consistent.{
  same_key, IsServable, IsConsistent, empty-IsConsistent, IsGood, apply-IsConsistent,
}

-- A call of the service that may change the store.
pub data Call : Type 0 where
  create_call : Str → Str → Str → List Str → List Rule → Time → Call
  update_call : Str → Str → Str → List Str → List Rule → Time → Call
  publish_call : Str → Str → Str → (ℕ → Time) → Call
  rollback_call : Str → Str → Str → (ℕ → Time) → Call

unfoldable pub step : Service → Call → MemStore → MemStore
step svc (create_call id org name agents rules now) m = (create id org name agents rules now m).1
step svc (update_call org id name agents rules now) m = (update org id name agents rules now m).1
step svc (publish_call org id author now) m = (publish svc org id author now m).1
step svc (rollback_call org id hash now) m = (rollback org id hash now m).1

unfoldable pub run : Service → List Call → MemStore → MemStore
run svc [] m = m
run svc (c ∷ cs) m = run svc cs (step svc c m)

pub version-cases :
    (f : Found Version)
    → ((e : StoreError) × (f ≡ err e) × (e ≢ version_not_found))
      ⊎ ((f ≡ err version_not_found) ⊎ ((v : Version) × (f ≡ ok v)))
version-cases (ok v) = inr (inr (v, refl))
version-cases (err version_not_found) = inr (inl refl)
version-cases (err policy_not_found) = inl (policy_not_found, refl, λ e. cc)
version-cases (err policy_exists) = inl (policy_exists, refl, λ e. cc)
version-cases (err bundle_not_found) = inl (bundle_not_found, refl, λ e. cc)
version-cases (err store_failed) = inl (store_failed, refl, λ e. cc)

module _ (svc : Service) where
  activate-IsConsistent :
      (p : Policy) (v : Version) (hash : Str) (now : ℕ → Time) (i : ℕ) (m : MemStore) {u : Version}
      → IsConsistent svc m
      → get_version p.org_id p.id hash m ≡ ok u
      → IsConsistent svc (activate p v hash now i m).1
  unfolding activate set_active point_org_bundle apply IsGood
  activate-IsConsistent p v hash now i m {u} c stored =
      let q : Policy = record p {
        status = published;
        active_version_hash = hash;
        updated_at = now i;
      } in
      let ref : BundleRef = record {
        org_id = p.org_id;
        policy_id = p.id;
        version_hash = hash;
        updated_at = now (i + 1);
      } in
      let d = apply-IsConsistent svc (update_write q) m tt c in
      let kept = apply-keeps (update_write q) p.org_id p.id hash m stored in
      elim (Option-cases (update_policy q m).0) [
        | inr (e, bad) ↦ rw (activate, bad) d
        | inl good ↦
            rw (activate, good)
              (apply-IsConsistent svc (bundle_write ref) (apply (update_write q) m) (u, kept) d)
      ]

  create-IsConsistent :
      (id org name : Str) (agents : List Str) (rules : List Rule) (now : Time) (m : MemStore)
      → IsConsistent svc m
      → IsConsistent svc (create id org name agents rules now m).1
  unfolding create apply IsGood
  create-IsConsistent id org name agents rules now m c = elim (Bool-cases (is_empty org)) [
    | inl bad ↦ rw (create, bad) c
    | inr ok_org ↦ elim (Bool-cases (is_empty name)) [
      | inl bad ↦ rw (create, ok_org, bad) c
      | inr ok_name ↦ rw (create, ok_org, ok_name) (apply-IsConsistent svc (create_write _) m tt c)
    ]
  ]

  update-IsConsistent :
      (org id name : Str) (agents : List Str) (rules : List Rule) (now : Time) (m : MemStore)
      → IsConsistent svc m
      → IsConsistent svc (update org id name agents rules now m).1
  unfolding update update_found apply IsGood
  update-IsConsistent org id name agents rules now m c = elim (Found-cases (get_policy org id m)) [
    | inl (e, bad) ↦ rw (update, bad) c
    | inr (p, found) ↦ rw (update, found) (apply-IsConsistent svc (update_write _) m tt c)
  ]

  restore-IsConsistent :
      (p : Policy) (v : Version) (now : ℕ → Time) (m : MemStore) {u : Version}
      → IsConsistent svc m
      → get_version p.org_id p.id v.version_hash m ≡ ok u
      → IsConsistent svc (restore p v now m).1
  unfolding restore point_org_bundle apply IsGood
  restore-IsConsistent p v now m {u} c stored =
      let q : Policy = record p {
        name = v.name;
        agents = v.agents;
        rules = v.rules;
        status = published;
        active_version_hash = v.version_hash;
        updated_at = now 0;
      } in
      let d = apply-IsConsistent svc (update_write q) m tt c in
      let kept = apply-keeps (update_write q) p.org_id p.id v.version_hash m stored in
      elim (Option-cases (update_policy q m).0) [
        | inr (e, bad) ↦ rw (restore, bad) d
        | inl good ↦
            rw (restore, good)
              (apply-IsConsistent svc (bundle_write _) (apply (update_write q) m) (u, kept) d)
      ]

  rollback-IsConsistent :
      (org id hash : Str) (now : ℕ → Time) (m : MemStore)
      → IsConsistent svc m
      → IsConsistent svc (rollback org id hash now m).1
  unfolding rollback restore point_org_bundle apply IsGood
  rollback-IsConsistent org id hash now m c = elim (Found-cases (get_policy org id m)) [
    | inl (e, bad) ↦ rw (rollback, bad) c
    | inr (p, found) ↦ elim (Found-cases (get_version org id hash m)) [
      | inl (e, bad) ↦ rw (rollback, found, bad) c
      | inr (v, stored) ↦
          rw (rollback, found, stored)
            (restore-IsConsistent p v now m c (
              same_key p.org_id p.id org id v.version_hash m (c.own org id p found)
              ∙ ap (λ h. get_version org id h m) (c.servable org id hash v stored).0
              ∙ stored))
    ]
  ]

  hash_minted :
      (p : Policy) (msg author : Str) (now : Time)
      → svc.canonical (view_of p) ≡ some msg
      → content_hash svc
          (version_view (minted svc p msg (str "polv_" ++ svc.digest msg) author now))
        ≡ some (str "polv_" ++ svc.digest msg)
  unfolding minted content_hash
  hash_minted p msg author now made = ground (arith, made)

  mint-IsServable :
      (p : Policy) (msg author : Str) (now : Time)
      → ((doc : Document) → svc.schema_problems doc ≡ [] → All IsKnown doc.rules)
      → validate svc.content_version svc.schema_problems (document_of p) ≡ []
      → svc.canonical (view_of p) ≡ some msg
      → IsServable svc
          (str "polv_" ++ svc.digest msg)
          (minted svc p msg (str "polv_" ++ svc.digest msg) author now)
  unfolding minted content_hash compile
  mint-IsServable p msg author now known valid made =
      let hash = str "polv_" ++ svc.digest msg in
      (
        refl,
        hash_minted p msg author now made,
        (validate-servable svc.content_version svc.schema_problems (document_of p) hash
            (known (document_of p)) refl valid).1,
      )

  publish_error :
      (p : Policy) (msg author : Str) (e : StoreError) (now : ℕ → Time) (m : MemStore)
      → e ≢ version_not_found
      → (publish_version svc p msg (str "polv_" ++ svc.digest msg) author (err e) now m).1 ≡ m
  unfolding publish_version
  publish_error p msg author policy_not_found now m n = refl
  publish_error p msg author version_not_found now m n = absurd (n refl)
  publish_error p msg author policy_exists now m n = refl
  publish_error p msg author bundle_not_found now m n = refl
  publish_error p msg author store_failed now m n = refl

  module _ (known : (doc : Document) → svc.schema_problems doc ≡ [] → All IsKnown doc.rules) where
    -- A new version is put and served under its hash.
    put_minted :
        (org id : Str) (p : Policy) (msg author : Str) (now : Time) (m : MemStore)
        → IsConsistent svc m
        → get_policy org id m ≡ ok p
        → validate svc.content_version svc.schema_problems (document_of p) ≡ []
        → svc.canonical (view_of p) ≡ some msg
        → get_version org id (str "polv_" ++ svc.digest msg) m ≡ err version_not_found
        → let v = minted svc p msg (str "polv_" ++ svc.digest msg) author now in
          IsConsistent svc (put_version v m).1
          × (get_version p.org_id p.id (str "polv_" ++ svc.digest msg) (put_version v m).1 ≡ ok v)
    unfolding apply IsGood minted
    put_minted org id p msg author now m c found valid made new =
        let hash = str "polv_" ++ svc.digest msg in
        let v = minted svc p msg hash author now in
        let good = mint-IsServable p msg author now known valid made in
        (
          apply-IsConsistent svc (put_write v) m good c,
          put_version-new v m (same_key p.org_id p.id org id hash m (c.own org id p found) ∙ new),
        )

    published-IsConsistent :
        (org id : Str) (p : Policy) (msg author : Str) (now : ℕ → Time) (m : MemStore)
        → IsConsistent svc m
        → get_policy org id m ≡ ok p
        → validate svc.content_version svc.schema_problems (document_of p) ≡ []
        → svc.canonical (view_of p) ≡ some msg
        → let hash = str "polv_" ++ svc.digest msg in
          IsConsistent svc
            (publish_version svc p msg hash author (get_version org id hash m) now m).1
    unfolding publish_version
    published-IsConsistent org id p msg author now m c found valid made =
        let hash = str "polv_" ++ svc.digest msg in
        elim (version-cases (get_version org id hash m)) [
          | inl (e, bad, other) ↦ rw (bad, publish_error p msg author e now m other) c
          | inr (inl new) ↦
              let (d, stored) = put_minted org id p msg author (now 0) m c found valid made new in
              rw new (activate-IsConsistent p _ hash now 1 _ d stored)
          | inr (inr (v, old)) ↦ rw old (
              activate-IsConsistent p v v.version_hash now 0 m c (
                same_key p.org_id p.id org id v.version_hash m (c.own org id p found)
                ∙ ap (λ h. get_version org id h m) (c.servable org id hash v old).0
                ∙ old))
        ]

    publish-IsConsistent :
        (org id author : Str) (now : ℕ → Time) (m : MemStore)
        → IsConsistent svc m
        → IsConsistent svc (publish svc org id author now m).1
    unfolding publish publish_valid publish_version
    publish-IsConsistent org id author now m c = elim (Found-cases (get_policy org id m)) [
      | inl (e, bad) ↦ rw (publish, bad) c
      | inr (p, found) ↦
          elim (Bool-cases
            (is_empty (validate svc.content_version svc.schema_problems (document_of p)))) [
              | inr bad ↦ rw (publish, found, bad) c
              | inl valid ↦ elim (Option-cases (svc.canonical (view_of p))) [
                | inl bad ↦ rw (publish, found, valid, bad) c
                | inr (msg, made) ↦
                    rw (publish, found, valid, made)
                      (published-IsConsistent org id p msg author now m c found
                        (is_empty_nil _ valid) made)
              ]
            ]
    ]

    step-IsConsistent :
        (c : Call) (m : MemStore) → IsConsistent svc m → IsConsistent svc (step svc c m)
    unfolding step
    step-IsConsistent (create_call id org name agents rules now) m i =
        create-IsConsistent id org name agents rules now m i
    step-IsConsistent (update_call org id name agents rules now) m i =
        update-IsConsistent org id name agents rules now m i
    step-IsConsistent (publish_call org id author now) m i =
        publish-IsConsistent org id author now m i
    step-IsConsistent (rollback_call org id hash now) m i =
        rollback-IsConsistent org id hash now m i

    run_loop :
        (cs : List Call) (m : MemStore) → IsConsistent svc m → IsConsistent svc (run svc cs m)
    unfolding run
    run_loop [] m i = i
    run_loop (c ∷ cs) m i = run_loop cs (step svc c m) (step-IsConsistent c m i)

    pub run-IsConsistent : (cs : List Call) → IsConsistent svc (run svc cs empty_store)
    run-IsConsistent cs = run_loop cs empty_store (empty-IsConsistent svc)

    -- From an empty store and after any history of creations, updates, publications and
    -- rollbacks, an organisation that has an active bundle is served: the decision plane's load of
    -- it succeeds, with the policy that the version under the bundle's hash compiles to, and this
    -- version has the hash of its content. The schema lets only the nine types of rule pass.
    pub run-loads :
        (cs : List Call) (org : Str) (cache : Entries) (ref : BundleRef)
        → get_active_bundle org (run svc cs empty_store) ≡ ok ref
        → (v : Version) × (pol : Engine.Policy) × (get_version ref.org_id ref.policy_id
              ref.version_hash
              (run svc cs empty_store)
            ≡ ok v)
          × (content_hash svc (version_view v) ≡ some ref.version_hash)
          × (compile svc.content_version v ≡ loaded pol)
          × ((load svc.content_version mem_source org (cache, run svc cs empty_store)).0
              ≡ Engine.ok pol)
    run-loads cs org cache ref active =
        let m = run svc cs empty_store in
        let c = run-IsConsistent cs in
        let (v, stored) = c.present org ref active in
        let (at, hash, (pol, compiles)) =
          c.servable ref.org_id ref.policy_id ref.version_hash v stored in
        (
          v,
          pol,
          stored,
          hash,
          compiles,
          load_served svc.content_version org cache m ref v pol active stored compiles,
        )
