-- ===== src/Tests/Publications.antt =====
-- Policies that are authored, published and rolled back.
use borges_labs.Base.{
  ◌≡◌, refl, Option, some, ◌||◌, Bool-cases, inl, inr, if◌then◌else◌, List, [], ◌∷◌, Str, str,
  str_eq, arith, All, lookup, insert, contains,
}
use borges_labs.Evaluation.{no_signature}
use borges_labs.Policies as Engine
use borges_labs.Loader.{PredicateDoc, loaded, parse, load_docs, build}
use borges_labs.Loader.Sound.{AreFresh}
use borges_labs.Authoring.{
  draft, published, Rule, Policy, Version, BundleRef, MemStore, empty_store, store_key, ok,
  create_policy, get_policy, update_policy, put_version, get_version, set_active_bundle,
  get_active_bundle,
}
use borges_labs.Bundle.{recode, recode_all, compile, compile_rules, load, mem_source}
use borges_labs.Validation.{
  Document, Problem, required, is_local_type, is_enriched_type, duplicates, local_rules,
  check_engine_parity, validate,
}
use borges_labs.Validation.Servable.{IsKnown, given_ids, validate-servable}
use borges_labs.Publishing.{
  Service, version_view, view_of, document_of, content_hash, create, publish, rollback, minted,
  activate, set_active, point_org_bundle, restore, update,
}
use borges_labs.Publishing.Served.{
  Call, create_call, publish_call, update_call, rollback_call, step, run, run-loads,
  run-IsConsistent,
}
use borges_labs.Publishing.Outcome.{Serves, Restored, publish_done, rollback_done}
use borges_labs.Tests.Data.{org, noon}
use borges_labs.Tests.Control.{vendors, rules}

-- The content hash of a file without a version.
abbrev a_hash : List PredicateDoc → Option Str
a_hash ds = some (str "c")

-- The schema that knows the nine types, and no more.
abbrev type_problems : List Rule → List Problem
type_problems [] = []
type_problems (r ∷ rs) =
    let rest = type_problems rs in
    if is_local_type r.type || is_enriched_type r.type then rest else required (str "/type") ∷ rest

type_problems-IsKnown : (rs : List Rule) → type_problems rs ≡ [] → All IsKnown rs
type_problems-IsKnown [] e = tt
type_problems-IsKnown (r ∷ rs) e =
    elim (Bool-cases (is_local_type r.type || is_enriched_type r.type)) [
      | inl known ↦ (known, type_problems-IsKnown rs (ground arith))
      | inr other ↦ absurd (ground arith)
    ]

abbrev service : Service
service = record {
  canonical = λ v. some v.name;
  digest = λ s. s;
  sign_detached = λ msg. no_signature;
  schema_problems = λ doc. type_problems doc.rules;
  content_version = a_hash;
}

abbrev doc : Document
doc = record { org_id = org; name = str "n"; agents = []; rules = rules }

validate-servable_example :
    AreFresh [] (given_ids rules)
    × ((pol : Engine.Policy) × (compile_rules a_hash (str "polv_1") rules ≡ loaded pol))
unfolding validate duplicates check_engine_parity local_rules is_local_type is_enriched_type str_eq
    lookup insert recode_all recode parse load_docs build contains
validate-servable_example =
    validate-servable a_hash service.schema_problems doc (str "polv_1")
      (type_problems-IsKnown rules) refl refl

abbrev history : List Call
history =
    create_call (str "p1") org (str "n") [] rules noon
    ∷ publish_call org (str "p1") (str "me") (λ i. noon)
    ∷ update_call org (str "p1") (str "m") [] (vendors ∷ []) noon
    ∷ publish_call org (str "p1") (str "me") (λ i. noon)
    ∷ rollback_call org (str "p1") (str "polv_n") (λ i. noon)
    ∷ []

abbrev ref : BundleRef
ref = record { org_id = org; policy_id = str "p1"; version_hash = str "polv_n"; updated_at = noon }

serving : get_active_bundle org (run service history empty_store) ≡ ok ref
unfolding run step create create_policy publish update rollback restore get_policy update_policy
    put_version get_version set_active_bundle get_active_bundle lookup insert store_key str_eq
    validate duplicates check_engine_parity local_rules is_local_type is_enriched_type recode_all
    recode parse load_docs build contains minted activate set_active point_org_bundle
serving = refl

run-loads_example :
    (v : Version) × (pol : Engine.Policy) × (get_version org
        (str "p1")
        (str "polv_n")
        (run service history empty_store)
      ≡ ok v)
    × (content_hash service (version_view v) ≡ some (str "polv_n"))
    × (compile a_hash v ≡ loaded pol)
    × ((load a_hash mem_source org ([], run service history empty_store)).0 ≡ Engine.ok pol)
run-loads_example =
    run-loads service (λ doc. type_problems-IsKnown doc.rules) history org [] ref serving

abbrev created : MemStore
created = run service (create_call (str "p1") org (str "n") [] rules noon ∷ []) empty_store

abbrev working_copy : Policy
working_copy = record {
  id = str "p1";
  org_id = org;
  name = str "n";
  agents = [];
  rules = rules;
  status = draft;
  active_version_hash = [];
  created_at = noon;
  updated_at = noon;
}

abbrev first_version : Version
first_version = record {
  version_hash = str "polv_n";
  policy_id = str "p1";
  org_id = org;
  name = str "n";
  agents = [];
  rules = rules;
  signature = no_signature;
  author = str "me";
  parent_hash = [];
  published_at = noon;
}

publish_done_example :
    (validate a_hash service.schema_problems (document_of working_copy) ≡ [])
    × (content_hash service (view_of working_copy) ≡ some (str "polv_n"))
    × Serves working_copy first_version
        (publish service org (str "p1") (str "me") (λ i. noon) created).1
unfolding run step create create_policy publish update rollback restore get_policy update_policy
    put_version get_version set_active_bundle get_active_bundle lookup insert store_key str_eq
    validate duplicates check_engine_parity local_rules is_local_type is_enriched_type recode_all
    recode parse load_docs build contains minted activate set_active point_org_bundle
publish_done_example =
    publish_done service org (str "p1") (str "me") (λ i. noon) created working_copy first_version
      (run-IsConsistent service (λ doc. type_problems-IsKnown doc.rules)
        (create_call (str "p1") org (str "n") [] rules noon ∷ []))
      refl refl

abbrev two_published : List Call
two_published =
    create_call (str "p1") org (str "n") [] rules noon
    ∷ publish_call org (str "p1") (str "me") (λ i. noon)
    ∷ update_call org (str "p1") (str "m") [] (vendors ∷ []) noon
    ∷ publish_call org (str "p1") (str "me") (λ i. noon)
    ∷ []

abbrev edited_copy : Policy
edited_copy = record working_copy {
  name = str "m";
  rules = vendors ∷ [];
  status = published;
  active_version_hash = str "polv_m";
}

rollback_done_example :
    (get_version org (str "p1") (str "polv_n") (run service two_published empty_store)
      ≡ ok first_version)
    × Restored org
        (str "p1")
        edited_copy
        first_version
        (rollback org
          (str "p1")
          (str "polv_n")
          (λ i. noon)
          (run service two_published empty_store)).1
unfolding run step create create_policy publish update rollback restore get_policy update_policy
    put_version get_version set_active_bundle get_active_bundle lookup insert store_key str_eq
    validate duplicates check_engine_parity local_rules is_local_type is_enriched_type recode_all
    recode parse load_docs build contains minted activate set_active point_org_bundle
rollback_done_example =
    rollback_done service org (str "p1") (str "polv_n") (λ i. noon)
      (run service two_published empty_store) edited_copy first_version
      (run-IsConsistent service (λ doc. type_problems-IsKnown doc.rules) two_published) refl refl
