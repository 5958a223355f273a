-- ===== src/Publishing/Consistent.antt =====
-- A store of policies whose versions can be served, and the writes that keep it so.
use mathlib.Core.Path.{subst}
use borges_labs.Base.{
  ◌≡◌, refl, sym, ◌∙◌, inl, inr, some, Str, arith, lookup, insert, lookup-insert, str_eq,
  str_eq_iff, Option-cases, Bool-cases,
}
use borges_labs.Policies as Engine
use borges_labs.Loader.{loaded}
use borges_labs.Authoring.{
  Policy, BundleRef, Version, ok, MemStore, empty_store, store_key, create_policy, get_policy,
  update_policy, put_version, get_version, set_active_bundle, get_active_bundle,
}
use borges_labs.Authoring.Immutable.{
  Write, create_write, update_write, put_write, bundle_write, apply, apply-keeps, put_version-get,
}
use borges_labs.Bundle.{compile}
use borges_labs.Publishing.{Service, version_view, content_hash}

-- The store serves the policy under its own key.
abbrev pub IsOwn : Str → Str → Policy → Type 0
IsOwn org id p = store_key p.org_id p.id ≡ store_key org id

pub same_key :
    (org id org2 id2 hash : Str) (m : MemStore)
    → store_key org id ≡ store_key org2 id2
    → get_version org id hash m ≡ get_version org2 id2 hash m
unfolding get_version
same_key org id org2 id2 hash m e = rw (get_version, e) refl

module _ (svc : Service) where
  -- The version has the hash of its content, and it compiles.
  abbrev pub IsServable : Str → Version → Type 0
  IsServable hash v =
      (v.version_hash ≡ hash)
      × (content_hash svc (version_view v) ≡ some hash)
      × ((pol : Engine.Policy) × (compile svc.content_version v ≡ loaded pol))

  pub record IsConsistent (m : MemStore) : Type 0 where
    pub own : (org id : Str) (p : Policy) → get_policy org id m ≡ ok p → IsOwn org id p
    pub servable :
        (org id hash : Str) (v : Version) → get_version org id hash m ≡ ok v → IsServable hash v
    pub present :
        (org : Str) (ref : BundleRef)
        → get_active_bundle org m ≡ ok ref
        → (v : Version) × (get_version ref.org_id ref.policy_id ref.version_hash m ≡ ok v)

  pub empty-IsConsistent : IsConsistent empty_store
  unfolding get_policy get_version get_active_bundle lookup
  empty-IsConsistent = record {
    own = λ org id p e. cc;
    servable = λ org id hash v e. cc;
    present = λ org ref e. absurd (ground arith);
  }

  insert_policy-IsOwn :
      (q : Policy) (m : MemStore) (org id : Str) (p : Policy)
      → IsConsistent m
      → get_policy org id (record m { policies = insert (store_key q.org_id q.id) q m.policies })
        ≡ ok p
      → IsOwn org id p
  unfolding get_policy
  insert_policy-IsOwn q m org id p c e = ground (
    arith,
    c.own org id p,
    lookup-insert (store_key q.org_id q.id) (store_key org id) q m.policies,
    str_eq_iff (store_key q.org_id q.id) (store_key org id),
  )

  -- A write that puts no version that is not servable, and points no bundle into the void.
  unfoldable pub IsGood : MemStore → Write → Type 0
  IsGood m (create_write p) = Unit
  IsGood m (update_write p) = Unit
  IsGood m (put_write v) = IsServable v.version_hash v
  IsGood m (bundle_write ref) =
      (v : Version) × (get_version ref.org_id ref.policy_id ref.version_hash m ≡ ok v)

  create-IsOwn :
      (q : Policy) (m : MemStore) (org id : Str) (p : Policy)
      → IsConsistent m
      → get_policy org id (create_policy q m).1 ≡ ok p
      → IsOwn org id p
  unfolding create_policy
  create-IsOwn q m org id p c e =
      elim (Option-cases (lookup (store_key q.org_id q.id) m.policies)) [
        | inr (old, known) ↦ c.own org id p (sym (rw (create_policy, known) refl) ∙ e)
        | inl new ↦ insert_policy-IsOwn q m org id p c (sym (rw (create_policy, new) refl) ∙ e)
      ]

  update-IsOwn :
      (q : Policy) (m : MemStore) (org id : Str) (p : Policy)
      → IsConsistent m
      → get_policy org id (update_policy q m).1 ≡ ok p
      → IsOwn org id p
  unfolding update_policy
  update-IsOwn q m org id p c e =
      elim (Option-cases (lookup (store_key q.org_id q.id) m.policies)) [
        | inr (old, known) ↦
            insert_policy-IsOwn q m org id p c (sym (rw (update_policy, known) refl) ∙ e)
        | inl new ↦ c.own org id p (sym (rw (update_policy, new) refl) ∙ e)
      ]

  other_versions :
      (w : Write) (m : MemStore) (org id hash : Str) (v : Version)
      → IsGood m w
      → IsConsistent m
      → get_version org id hash (apply w m) ≡ ok v
      → IsServable hash v
  unfolding apply create_policy update_policy set_active_bundle get_version IsGood
  other_versions (create_write p) m org id hash v g c e = c.servable org id hash v (ground arith)
  other_versions (update_write p) m org id hash v g c e = c.servable org id hash v (ground arith)
  other_versions (put_write u) m org id hash v g c e = elim (put_version-get u org id hash m v e) [
    | inl old ↦ c.servable org id hash v old
    | inr (same, at) ↦
        subst (λ h. IsServable h v) at (subst (IsServable u.version_hash) (sym same) g)
  ]
  other_versions (bundle_write ref) m org id hash v g c e = c.servable org id hash v e

  other_bundles :
      (w : Write) (m : MemStore) (org : Str) (ref : BundleRef)
      → IsGood m w
      → IsConsistent m
      → get_active_bundle org (apply w m) ≡ ok ref
      → (v : Version) × (get_version ref.org_id ref.policy_id ref.version_hash m ≡ ok v)
  unfolding apply create_policy update_policy put_version set_active_bundle get_active_bundle IsGood
  other_bundles (create_write p) m org ref g c e = c.present org ref (ground arith)
  other_bundles (update_write p) m org ref g c e = c.present org ref (ground arith)
  other_bundles (put_write u) m org ref g c e = c.present org ref (ground arith)
  other_bundles (bundle_write new) m org ref g c e = elim (Bool-cases (str_eq new.org_id org)) [
    | inl same ↦
        let it : new ≡ ref = ground (arith, lookup-insert new.org_id org new m.bundles) in
        subst
          (λ (r : BundleRef).
            (v : Version) × (get_version r.org_id r.policy_id r.version_hash m ≡ ok v))
          it g
    | inr other ↦ c.present org ref (ground (arith, lookup-insert new.org_id org new m.bundles))
  ]

  apply-IsOwn :
      (w : Write) (m : MemStore) (org id : Str) (p : Policy)
      → IsConsistent m
      → get_policy org id (apply w m) ≡ ok p
      → IsOwn org id p
  unfolding apply set_active_bundle put_version get_policy
  apply-IsOwn (create_write q) m org id p c e = create-IsOwn q m org id p c e
  apply-IsOwn (update_write q) m org id p c e = update-IsOwn q m org id p c e
  apply-IsOwn (put_write v) m org id p c e = c.own org id p (ground arith)
  apply-IsOwn (bundle_write ref) m org id p c e = c.own org id p e

  pub apply-IsConsistent :
      (w : Write) (m : MemStore) → IsGood m w → IsConsistent m → IsConsistent (apply w m)
  unfolding apply set_active_bundle put_version get_policy
  apply-IsConsistent w m g c = record {
    own = λ org id p e. apply-IsOwn w m org id p c e;
    servable = λ org id hash v e. other_versions w m org id hash v g c e;
    present = λ org ref e.
        let (v, stored) = other_bundles w m org ref g c e in
        (v, apply-keeps w ref.org_id ref.policy_id ref.version_hash m stored);
  }
