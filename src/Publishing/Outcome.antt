-- ===== src/Publishing/Outcome.antt =====
-- What a publication and a rollback that succeed have done.
use mathlib.Core.Path.{subst}
use borges_labs.Base.{
  ℕ, ◌+◌, ◌≡◌, refl, sym, ap, ◌∙◌, inl, inr, none, some, [], ◌++◌, Str, str, arith, is_empty,
  lookup-insert_self, Option-cases, Bool-cases,
}
use borges_labs.Clock.{Time}
use borges_labs.Authoring.{
  published, Policy, BundleRef, Version, StoreError, policy_not_found, policy_exists,
  bundle_not_found, store_failed, version_not_found, Found, ok, err, Found-cases, MemStore,
  store_key, get_policy, update_policy, put_version, get_version, set_active_bundle,
  get_active_bundle,
}
use borges_labs.Authoring.Immutable.{
  update_write, bundle_write, apply, apply-keeps, put_version-new,
}
use borges_labs.Validation.{validate}
use borges_labs.Validation.Servable.{is_empty_nil}
use borges_labs.Publishing.{
  Result, done, Service, view_of, content_hash, document_of, point_org_bundle, set_active, activate,
  minted, publish_version, publish_valid, publish, restore, rollback,
}
use borges_labs.Publishing.Consistent.{IsOwn, same_key, IsConsistent}
use borges_labs.Publishing.Served.{version-cases}

-- The organisation's bundle names a version that the store serves for the policy.
abbrev pub Serves : Policy → Version → MemStore → Type 0
Serves p v m =
    (get_version p.org_id p.id v.version_hash m ≡ ok v)
    × ((ref : BundleRef) × (get_active_bundle p.org_id m ≡ ok ref)
        × (ref.org_id ≡ p.org_id)
        × (ref.policy_id ≡ p.id)
        × (ref.version_hash ≡ v.version_hash))

bundle_set :
    (ref : BundleRef) (m : MemStore)
    → get_active_bundle ref.org_id (set_active_bundle ref m) ≡ ok ref
unfolding get_active_bundle set_active_bundle
bundle_set ref m = rw (get_active_bundle, lookup-insert_self) refl

activate_done :
    (p : Policy) (v u : Version) (now : ℕ → Time) (i : ℕ) (m : MemStore)
    → (activate p v v.version_hash now i m).0 ≡ done u
    → get_version p.org_id p.id v.version_hash m ≡ ok v
    → (u ≡ v) × Serves p v (activate p v v.version_hash now i m).1
unfolding activate set_active point_org_bundle apply
activate_done p v u now i m e stored =
    let q : Policy = record p {
      status = published;
      active_version_hash = v.version_hash;
      updated_at = now i;
    } in
    let ref : BundleRef = record {
      org_id = p.org_id;
      policy_id = p.id;
      version_hash = v.version_hash;
      updated_at = now (i + 1);
    } in
    let kept = apply-keeps (update_write q) p.org_id p.id v.version_hash m stored in
    let still =
      apply-keeps (bundle_write ref) p.org_id p.id v.version_hash (update_policy q m).1 kept in
    elim (Option-cases (update_policy q m).0) [
      | inr (x, bad) ↦ absurd (ground arith)
      | inl good ↦ (
        ground arith,
        rw (activate, good) (still, (ref, bundle_set ref (update_policy q m).1, refl, refl, refl)),
      )
    ]

-- What a rollback leaves.
abbrev pub Restored : Str → Str → Policy → Version → MemStore → Type 0
Restored org id p v m =
    Serves p v m
    × ((q : Policy) × (get_policy org id m ≡ ok q)
        × (q.name ≡ v.name)
        × (q.agents ≡ v.agents)
        × (q.rules ≡ v.rules)
        × (q.active_version_hash ≡ v.version_hash))

updated :
    (org id : Str) (q : Policy) (m : MemStore)
    → store_key q.org_id q.id ≡ store_key org id
    → (update_policy q m).0 ≡ none
    → get_policy org id (update_policy q m).1 ≡ ok q
unfolding get_policy update_policy
updated org id q m own good =
    ground (arith, own, lookup-insert_self (store_key q.org_id q.id) q m.policies)

restore_done :
    (org id : Str) (p : Policy) (v u : Version) (now : ℕ → Time) (m : MemStore)
    → IsOwn org id p
    → get_version p.org_id p.id v.version_hash m ≡ ok v
    → (restore p v now m).0 ≡ done u
    → (u ≡ v) × Restored org id p v (restore p v now m).1
unfolding restore point_org_bundle apply set_active_bundle get_policy
restore_done org id p v u now m own stored e =
    let q : Policy = record p {
      name = v.name;
      agents = v.agents;
      rules = v.rules;
      status = published;
      active_version_hash = v.version_hash;
      updated_at = now 0;
    } in
    let ref : BundleRef = record {
      org_id = p.org_id;
      policy_id = p.id;
      version_hash = v.version_hash;
      updated_at = now 1;
    } in
    let kept = apply-keeps (update_write q) p.org_id p.id v.version_hash m stored in
    let still =
      apply-keeps (bundle_write ref) p.org_id p.id v.version_hash (update_policy q m).1 kept in
    elim (Option-cases (update_policy q m).0) [
      | inr (x, bad) ↦ absurd (ground arith)
      | inl good ↦ (
        ground arith,
        rw (restore, good)
            (
              (still, (ref, bundle_set ref (update_policy q m).1, refl, refl, refl)),
              (q, updated org id q m own good, refl, refl, refl, refl),
            ),
      )
    ]

module _ (svc : Service) where
  error_not_done :
      (p : Policy) (msg author : Str) (e : StoreError) (now : ℕ → Time) (m : MemStore) (u : Version)
      → (publish_version svc p msg (str "polv_" ++ svc.digest msg) author (err e) now m).0 ≡ done u
      → e ≡ version_not_found
  unfolding publish_version
  error_not_done p msg author policy_not_found now m u e = cc
  error_not_done p msg author version_not_found now m u e = refl
  error_not_done p msg author policy_exists now m u e = cc
  error_not_done p msg author bundle_not_found now m u e = cc
  error_not_done p msg author store_failed now m u e = cc

  minted_done :
      (p : Policy) (msg author : Str) (now : ℕ → Time) (m : MemStore) (u : Version)
      → let hash = str "polv_" ++ svc.digest msg in
        let after = publish_version svc p msg hash author (err version_not_found) now m in
        get_version p.org_id p.id hash m ≡ err version_not_found
        → after.0 ≡ done u
        → (u.version_hash ≡ hash) × Serves p u after.1
  unfolding publish_version minted
  minted_done p msg author now m u new e =
      let hash = str "polv_" ++ svc.digest msg in
      let v = minted svc p msg hash author (now 0) in
      let (same, serves) =
        activate_done p v u now 1 (put_version v m).1 e (put_version-new v m new) in
      (
        ap (λ w. w.version_hash) same,
        subst (λ w. Serves p w (activate p v hash now 1 (put_version v m).1).1) (sym same) serves,
      )

  reused_done :
      (p : Policy) (msg author : Str) (now : ℕ → Time) (m : MemStore) (u v : Version)
      → let hash = str "polv_" ++ svc.digest msg in
        let after = publish_version svc p msg hash author (ok v) now m in
        get_version p.org_id p.id v.version_hash m ≡ ok v
        → v.version_hash ≡ hash
        → after.0 ≡ done u
        → (u.version_hash ≡ hash) × Serves p u after.1
  unfolding publish_version
  reused_done p msg author now m u v old at e =
      let (same, serves) = activate_done p v u now 0 m e old in
      (
        ap (λ w. w.version_hash) same ∙ at,
        subst (λ w. Serves p w (activate p v v.version_hash now 0 m).1) (sym same) serves,
      )

  publish_version_done :
      (org id : Str) (p : Policy) (msg author : Str) (now : ℕ → Time) (m : MemStore) (u : Version)
      → IsConsistent svc m
      → IsOwn org id p
      → let hash = str "polv_" ++ svc.digest msg in
        let after = publish_version svc p msg hash author (get_version org id hash m) now m in
        after.0 ≡ done u → (u.version_hash ≡ hash) × Serves p u after.1
  publish_version_done org id p msg author now m u c own e =
      let hash = str "polv_" ++ svc.digest msg in
      let after : Found Version → Result Version × MemStore =
        λ f. publish_version svc p msg hash author f now m in
      elim (version-cases (get_version org id hash m)) [
        | inl (x, bad, other) ↦
            absurd
              (other (error_not_done p msg author x now m u (sym (ap (λ f. (after f).0) bad) ∙ e)))
        | inr (inl new) ↦ rw new (
            minted_done p msg author now m u (same_key p.org_id p.id org id hash m own ∙ new)
              (sym (ap (λ f. (after f).0) new) ∙ e))
        | inr (inr (v, old)) ↦
            let at = (c.servable org id hash v old).0 in
            rw old (
              reused_done p msg author now m u v
                (same_key p.org_id p.id org id v.version_hash m own
                  ∙ ap (λ h. get_version org id h m) at
                  ∙ old)
                at (sym (ap (λ f. (after f).0) old) ∙ e))
      ]

  -- A publication that succeeds answers a version whose hash is the content hash of the working
  -- copy, which is valid; the store serves this version under that hash, and the organisation's
  -- bundle points to it. This holds for a new version and for one published before.
  pub publish_done :
      (org id author : Str) (now : ℕ → Time) (m : MemStore) (p : Policy) (u : Version)
      → IsConsistent svc m
      → get_policy org id m ≡ ok p
      → (publish svc org id author now m).0 ≡ done u
      → (validate svc.content_version svc.schema_problems (document_of p) ≡ [])
        × (content_hash svc (view_of p) ≡ some u.version_hash)
        × Serves p u (publish svc org id author now m).1
  unfolding publish publish_valid content_hash
  publish_done org id author now m p u c found e =
      elim (Bool-cases
        (is_empty (validate svc.content_version svc.schema_problems (document_of p)))) [
          | inr bad ↦ absurd (ground arith)
          | inl valid ↦ elim (Option-cases (svc.canonical (view_of p))) [
            | inl bad ↦ absurd (ground arith)
            | inr (msg, made) ↦
                let (hash, serves) =
                  publish_version_done org id p msg author now m u c (c.own org id p found)
                    (ground arith) in
                (
                  is_empty_nil _ valid,
                  rw (content_hash, made) (ap some (sym hash)),
                  rw (publish, found, valid, made) serves,
                )
          ]
        ]

  -- A rollback that succeeds restores the version that was asked for: the working copy has its
  -- name, agents and rules and names it as active, the store serves it as before, and the
  -- organisation's bundle points to it.
  pub rollback_done :
      (org id hash : Str) (now : ℕ → Time) (m : MemStore) (p : Policy) (v : Version)
      → IsConsistent svc m
      → get_policy org id m ≡ ok p
      → (rollback org id hash now m).0 ≡ done v
      → (get_version org id hash m ≡ ok v) × Restored org id p v (rollback org id hash now m).1
  unfolding rollback
  rollback_done org id hash now m p v c found e = elim (Found-cases (get_version org id hash m)) [
    | inl (x, bad) ↦ absurd (ground arith)
    | inr (target, stored) ↦
        let own = c.own org id p found in
        let at = (c.servable org id hash target stored).0 in
        let own_stored =
          same_key p.org_id p.id org id target.version_hash m own
          ∙ ap (λ h. get_version org id h m) at
          ∙ stored in
        let (same, restored) = restore_done org id p target v now m own own_stored (ground arith) in
        subst
          (λ w.
            (get_version org id hash m ≡ ok w) × Restored org id p w (rollback org id hash now m).1)
          (sym same) (stored, rw (rollback, found, stored) restored)
  ]
