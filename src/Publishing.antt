-- ===== src/Publishing.antt =====
-- Authoring and publishing (services/authorize-svc/internal/policyctl/service.go; the signed view
-- and the content hash, policyctl.go), over the in-memory store. The signer, the canonical JSON of
-- a signed view and SHA-256 in hex are parameters. A call is the sequence of its calls of the
-- store; `now` gives its readings of the clock in order.
pub mod Consistent
pub mod Served
pub mod Outcome
use borges_labs.Base.{
  ℕ, ◌+◌, Option, none, some, List, [], ◌∷◌, ◌++◌, Str, str, is_empty, if◌then◌else◌,
}
use borges_labs.Clock.{Time}
use borges_labs.Contracts.{Signature}
use borges_labs.Loader.{PredicateDoc}
use borges_labs.Authoring.{
  draft, published, Rule, Policy, Version, StoreError, version_not_found, Found, ok, err, MemStore,
  create_policy, get_policy, update_policy, put_version, get_version, list_versions,
  set_active_bundle,
}
use borges_labs.Validation.{Document, Problem, required, validate}

pub record SignedView : Type 0 where
  pub policy_id : Str
  pub org_id : Str
  pub name : Str
  pub agents : List Str
  pub rules : List Rule

pub data Failure : Type 0 where
  invalid : List Problem → Failure
  store_error : StoreError → Failure
  not_canonical : Failure

pub data Result (A : Type 0) : Type 0 where
  done : A → Result A
  refused : Failure → Result A

pub record Service : Type 0 where
  -- `jcs.Transform` of the view's JSON; `none` is its error
  pub canonical : SignedView → Option Str
  -- the hex of SHA-256
  pub digest : Str → Str
  -- `SignDetached(Canonicalization, msg)`
  pub sign_detached : Str → Signature
  pub schema_problems : Document → List Problem
  pub content_version : List PredicateDoc → Option Str

abbrev pub view_of : Policy → SignedView
view_of p = record {
  policy_id = p.id;
  org_id = p.org_id;
  name = p.name;
  agents = p.agents;
  rules = p.rules;
}

abbrev pub version_view : Version → SignedView
version_view v = record {
  policy_id = v.policy_id;
  org_id = v.org_id;
  name = v.name;
  agents = v.agents;
  rules = v.rules;
}

-- `MemStore.UpdatePolicy`, as an error or none.
abbrev pub failed_with : {A : Type 0} → Option StoreError → Result A → Result A
failed_with none r = r
failed_with (some e) r = refused (store_error e)

-- `pointOrgBundle`
unfoldable pub point_org_bundle : Str → Str → Str → Time → MemStore → MemStore
point_org_bundle org_id policy_id hash now m =
    set_active_bundle
      (record { org_id = org_id; policy_id = policy_id; version_hash = hash; updated_at = now }) m

-- `setActive`
unfoldable pub set_active : Policy → Str → Time → MemStore → Option StoreError × MemStore
set_active p hash now m =
    update_policy (record p { status = published; active_version_hash = hash; updated_at = now }) m

-- The calls that `Publish` ends with, for a version to answer.
unfoldable pub activate :
    Policy → Version → Str → (ℕ → Time) → ℕ → MemStore → Result Version × MemStore
activate p v hash now i m =
    let active = set_active p hash (now i) m in
    elim active.0 [
      | some e ↦ (refused (store_error e), active.1)
      | none ↦ (done v, point_org_bundle p.org_id p.id hash (now (i + 1)) active.1)
    ]

-- `Create`, with the id that is generated.
unfoldable pub create :
    Str → Str → Str → List Str → List Rule → Time → MemStore → Result Policy × MemStore
create id org_id name agents rules now m =
    let p : Policy = record {
      id = id;
      org_id = org_id;
      name = name;
      agents = agents;
      rules = rules;
      status = draft;
      active_version_hash = [];
      created_at = now;
      updated_at = now;
    } in
    let step = create_policy p m in
    if is_empty org_id
    then (refused (invalid (required (str "/org_id") ∷ [])), m)
    else if is_empty name
    then (refused (invalid (required (str "/name") ∷ [])), m)
    else (failed_with step.0 (done p), step.1)

update_found : Str → List Str → List Rule → Time → Policy → MemStore → Result Policy × MemStore
update_found name agents rules now p m =
    let q : Policy = record p {
      name = if is_empty name then p.name else name;
      agents = agents;
      rules = rules;
      updated_at = now;
    } in
    let step = update_policy q m in (failed_with step.0 (done q), step.1)

-- `Update`
unfoldable pub update :
    Str → Str → Str → List Str → List Rule → Time → MemStore → Result Policy × MemStore
unfolding update_found
update org_id id name agents rules now m = elim (get_policy org_id id m) [
  | err e ↦ (refused (store_error e), m)
  | ok p ↦ update_found name agents rules now p m
]

abbrev pub document_of : Policy → Document
document_of p = record { org_id = p.org_id; name = p.name; agents = p.agents; rules = p.rules }

-- `ListVersions`
unfoldable pub list_published : Str → Str → MemStore → Result (List Version)
list_published org_id id m = elim (get_policy org_id id m) [
  | err e ↦ refused (store_error e)
  | ok p ↦ done (list_versions org_id id m)
]

abbrev pub found_or : {A : Type 0} → Found A → Result A
found_or (err e) = refused (store_error e)
found_or (ok a) = done a

-- `Active`
unfoldable pub active_version : Str → Str → MemStore → Result Version
active_version org_id id m = elim (get_policy org_id id m) [
  | err e ↦ refused (store_error e)
  | ok p ↦
      if is_empty p.active_version_hash
      then refused (store_error version_not_found)
      else found_or (get_version org_id id p.active_version_hash m)
]

-- `Rollback`, once policy and version are read.
unfoldable pub restore : Policy → Version → (ℕ → Time) → MemStore → Result Version × MemStore
restore p target now m =
    let q : Policy = record p {
      name = target.name;
      agents = target.agents;
      rules = target.rules;
      status = published;
      active_version_hash = target.version_hash;
      updated_at = now 0;
    } in
    let step = update_policy q m in
    elim step.0 [
      | some e ↦ (refused (store_error e), step.1)
      | none ↦ (done target, point_org_bundle p.org_id p.id target.version_hash (now 1) step.1)
    ]

-- `Rollback`
unfoldable pub rollback : Str → Str → Str → (ℕ → Time) → MemStore → Result Version × MemStore
rollback org_id id hash now m = elim (get_policy org_id id m) [
  | err e ↦ (refused (store_error e), m)
  | ok p ↦ elim (get_version org_id id hash m) [
    | err e ↦ (refused (store_error e), m)
    | ok target ↦ restore p target now m
  ]
]

module _ (svc : Service) where
  -- `ContentHash`
  unfoldable pub content_hash : SignedView → Option Str
  content_hash view = elim (svc.canonical view) [
    | none ↦ none
    | some msg ↦ some (str "polv_" ++ svc.digest msg)
  ]

  -- The version that `Publish` mints.
  unfoldable pub minted : Policy → Str → Str → Str → Time → Version
  minted p msg hash author now = record {
    version_hash = hash;
    policy_id = p.id;
    org_id = p.org_id;
    name = p.name;
    agents = p.agents;
    rules = p.rules;
    signature = svc.sign_detached msg;
    author = author;
    parent_hash = p.active_version_hash;
    published_at = now;
  }

  -- `Publish`, once the message and the hash of the working copy are known.
  publish_version :
      Policy → Str → Str → Str → Found Version → (ℕ → Time) → MemStore → Result Version × MemStore
  publish_version p msg hash author (ok existing) now m =
      activate p existing existing.version_hash now 0 m
  publish_version p msg hash author (err version_not_found) now m =
      let v = minted p msg hash author (now 0) in activate p v hash now 1 (put_version v m).1
  publish_version p msg hash author (err e) now m = (refused (store_error e), m)

  publish_valid :
      Str → Str → Policy → Str → Option Str → (ℕ → Time) → MemStore → Result Version × MemStore
  unfolding publish_version
  publish_valid org_id id p author none now m = (refused not_canonical, m)
  publish_valid org_id id p author (some msg) now m =
      let hash = str "polv_" ++ svc.digest msg in
      publish_version p msg hash author (get_version org_id id hash m) now m

  -- `Publish`
  unfoldable pub publish : Str → Str → Str → (ℕ → Time) → MemStore → Result Version × MemStore
  unfolding publish_valid
  publish org_id id author now m = elim (get_policy org_id id m) [
    | err e ↦ (refused (store_error e), m)
    | ok p ↦
        let problems = validate svc.content_version svc.schema_problems (document_of p) in
        if is_empty problems
        then publish_valid org_id id p author (svc.canonical (view_of p)) now m
        else (refused (invalid problems), m)
  ]
