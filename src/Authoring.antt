-- ===== src/Authoring.antt =====
-- The control plane's store of policies (services/authorize-svc/internal/policyctl/policyctl.go,
-- store.go): the documents, and the in-memory store, whose mutex makes a method one step. A
-- version that two maps of the store share is never changed, so that each map holds it.
pub mod Immutable
use borges_labs.Base.{
  ◌≡◌, refl, ◌⊎◌, inl, inr, ℤ, Bool, true, false, Option, none, some, List, [], ◌∷◌, ◌++◌, Str, str,
  has_prefix, if◌then◌else◌, Dict, lookup, insert,
}
use borges_labs.Clock.{Time, after}
use borges_labs.Contracts.{Signature}

pub data Status : Type 0 where
  draft published : Status

-- The union of the fields of every type of rule; a nil pointer is `none`.
pub record Rule : Type 0 where
  pub id : Str
  pub type : Str
  pub agents : List Str
  pub max : Str
  pub currency : Str
  pub vendors : List Str
  pub allowed_actions : List Str
  pub allowed_targets : List Str
  pub start_minute : Option ℤ
  pub end_minute : Option ℤ
  pub weekdays : List ℤ
  pub allowed : Dict (List Str)
  pub window : Str
  pub limit : Str
  pub provider : Str
  pub threshold : Option ℤ
  pub fail_mode : Str

pub record Policy : Type 0 where
  pub id : Str
  pub org_id : Str
  pub name : Str
  pub agents : List Str
  pub rules : List Rule
  pub status : Status
  pub active_version_hash : Str
  pub created_at : Time
  pub updated_at : Time

pub record BundleRef : Type 0 where
  pub org_id : Str
  pub policy_id : Str
  pub version_hash : Str
  pub updated_at : Time

pub record Version : Type 0 where
  pub version_hash : Str
  pub policy_id : Str
  pub org_id : Str
  pub name : Str
  pub agents : List Str
  pub rules : List Rule
  pub signature : Signature
  pub author : Str
  pub parent_hash : Str
  pub published_at : Time

-- `store_failed` is what a store may answer that keeps its rows elsewhere.
pub data StoreError : Type 0 where
  policy_not_found version_not_found policy_exists bundle_not_found store_failed : StoreError

pub data Found (A : Type 0) : Type 0 where
  ok : A → Found A
  err : StoreError → Found A

pub Found-cases :
    {A : Type 0} (f : Found A) → ((e : StoreError) × (f ≡ err e)) ⊎ ((a : A) × (f ≡ ok a))
Found-cases (err e) = inl (e, refl)
Found-cases (ok a) = inr (a, refl)

pub record MemStore : Type 0 where
  pub policies : Dict Policy
  pub versions : Dict (List Version)
  pub seen : Dict (Dict Version)
  pub bundles : Dict BundleRef

abbrev pub empty_store : MemStore
empty_store = record { policies = []; versions = []; seen = []; bundles = [] }

-- `key(org, id)`
unfoldable pub store_key : Str → Str → Str
store_key org id = org ++ (str "|" ++ id)

-- `sort.SliceStable` by a time, newest first, as insertion from the end.
module _ {A : Type 0} (at : A → Time) where
  unfoldable pub insert_newest : A → List A → List A
  insert_newest x [] = x ∷ []
  insert_newest x (y ∷ ys) =
      let rest = insert_newest x ys in if after (at y) (at x) then y ∷ rest else x ∷ y ∷ ys

  unfoldable pub sort_newest : List A → List A
  sort_newest [] = []
  sort_newest (x ∷ xs) = insert_newest x (sort_newest xs)

unfoldable pub create_policy : Policy → MemStore → Option StoreError × MemStore
create_policy p m = elim (lookup (store_key p.org_id p.id) m.policies) [
  | some _ ↦ (some policy_exists, m)
  | none ↦ (none, record m { policies = insert (store_key p.org_id p.id) p m.policies })
]

unfoldable pub get_policy : Str → Str → MemStore → Found Policy
get_policy org id m = elim (lookup (store_key org id) m.policies) [
  | none ↦ err policy_not_found
  | some p ↦ ok p
]

unfoldable pub update_policy : Policy → MemStore → Option StoreError × MemStore
update_policy p m = elim (lookup (store_key p.org_id p.id) m.policies) [
  | none ↦ (some policy_not_found, m)
  | some _ ↦ (none, record m { policies = insert (store_key p.org_id p.id) p m.policies })
]

-- The loop of `ListPolicies`.
unfoldable pub with_prefix : Str → Dict Policy → List Policy
with_prefix prefix [] = []
with_prefix prefix ((k, p) ∷ m) =
    let rest = with_prefix prefix m in if has_prefix k prefix then p ∷ rest else rest

unfoldable pub list_policies : Str → MemStore → List Policy
unfolding with_prefix
list_policies org m = sort_newest (λ p. p.updated_at) (with_prefix (org ++ str "|") m.policies)

-- A missing map reads as the empty one.
abbrev pub or_empty {ℓ} : {A : Type ℓ} → Option (List A) → List A
or_empty none = []
or_empty (some m) = m

-- `PutVersion`: whether the version is new.
unfoldable pub put_version : Version → MemStore → Bool × MemStore
put_version v m =
    let k = store_key v.org_id v.policy_id in
    let known = or_empty (lookup k m.seen) in
    elim (lookup v.version_hash known) [
      | some _ ↦ (false, record m { seen = insert k known m.seen })
      | none ↦ (
        true,
        record m {
          seen = insert k (insert v.version_hash v known) m.seen;
          versions = insert k (or_empty (lookup k m.versions) ++ v ∷ []) m.versions;
        },
      )
    ]

unfoldable pub get_version : Str → Str → Str → MemStore → Found Version
get_version org policy_id version_hash m =
    elim (lookup version_hash (or_empty (lookup (store_key org policy_id) m.seen))) [
      | some v ↦ ok v
      | none ↦ err version_not_found
    ]

unfoldable pub list_versions : Str → Str → MemStore → List Version
list_versions org policy_id m =
    sort_newest (λ v. v.published_at) (or_empty (lookup (store_key org policy_id) m.versions))

unfoldable pub set_active_bundle : BundleRef → MemStore → MemStore
set_active_bundle ref m = record m { bundles = insert ref.org_id ref m.bundles }

unfoldable pub get_active_bundle : Str → MemStore → Found BundleRef
get_active_bundle org m = elim (lookup org m.bundles) [
  | some b ↦ ok b
  | none ↦ err bundle_not_found
]
