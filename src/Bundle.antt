-- ===== src/Bundle.antt =====
-- Active bundles (services/authorize-svc/internal/bundle/bundle.go): the compilation of a
-- published version to a policy, and the provider that serves each organisation's bundle from a
-- cache. The provider's state is the cache and the state of the store that it reads.
pub mod Compiled
pub mod Cache
pub mod Outage
use borges_labs.Base.{
  Bool, false, ◌&&◌, ◌||◌, Option, none, some, List, [], ◌∷◌, Str, str, str_eq, is_empty, is_some,
  not, if◌then◌else◌, Dict, lookup, insert, map,
}
use borges_labs.Policies.{BudgetDecl, Policy, Error, no_active_bundle, load_failed}
use borges_labs.Policies as Engine
use borges_labs.Authoring.{
  Rule, BundleRef, Version, StoreError, bundle_not_found, Found, ok, err, MemStore,
  get_active_bundle, get_version,
}
use borges_labs.Loader.{PredicateDoc, Loaded, loaded, failed, parse}

-- `json.Marshal` of a rule, read back by a decoder that refuses unknown fields: both types give
-- the shared fields the same names, empty fields are left out, and a field that only a rule has
-- makes the decoder fail.
unfoldable pub recode : Rule → Option PredicateDoc
recode r =
    if is_empty r.window
      && (is_empty r.limit
          && (is_empty r.provider && (not (is_some r.threshold) && is_empty r.fail_mode)))
    then some (record {
      id = r.id;
      type = r.type;
      agents = r.agents;
      max = r.max;
      currency = r.currency;
      vendors = r.vendors;
      allowed_actions = r.allowed_actions;
      allowed_targets = r.allowed_targets;
      start_minute = r.start_minute;
      end_minute = r.end_minute;
      weekdays = r.weekdays;
      allowed = r.allowed;
    })
    else none

prepend_doc : Option PredicateDoc → Option (List PredicateDoc) → Option (List PredicateDoc)
prepend_doc (some d) (some ds) = some (d ∷ ds)
prepend_doc (some d) none = none
prepend_doc none rest = none

unfoldable pub recode_all : List Rule → Option (List PredicateDoc)
unfolding prepend_doc
recode_all [] = some []
recode_all (r ∷ rs) = prepend_doc (recode r) (recode_all rs)

abbrev pub is_budget : Rule → Bool
is_budget r = str_eq r.type (str "rolling_budget")

-- `droppedTypes`
abbrev pub is_dropped : Rule → Bool
is_dropped r = str_eq r.type (str "sanctions_screen") || str_eq r.type (str "vendor_risk")

abbrev pub budget_of : Rule → BudgetDecl
budget_of r = record {
  id = r.id;
  agents = r.agents;
  window = r.window;
  limit = r.limit;
  currency = r.currency;
}

-- The loop of `CompileRules`: the budgets, and the local rules.
unfoldable pub sort_rules : List Rule → List BudgetDecl × List Rule
sort_rules [] = ([], [])
sort_rules (r ∷ rs) =
    let rest = sort_rules rs in
    if is_budget r
    then (budget_of r ∷ rest.0, rest.1)
    else if is_dropped r
    then rest
    else (rest.0, r ∷ rest.1)

with_budgets : List BudgetDecl → Loaded Policy → Loaded Policy
with_budgets bs (loaded pol) = loaded (record pol { budgets = bs })
with_budgets bs (failed e) = failed e

module _ (content_version : List PredicateDoc → Option Str) where
  -- `CompileRules`
  unfoldable pub compile_rules : Str → List Rule → Loaded Policy
  unfolding with_budgets
  compile_rules version rules =
      let (budgets, local) = sort_rules rules in
      with_budgets budgets (
        parse content_version (elim (recode_all local) [
          | none ↦ none
          | some ds ↦ some (record { version = version; predicates = ds })
        ]))

  -- `Compile`
  unfoldable pub compile : Version → Loaded Policy
  compile v = compile_rules v.version_hash v.rules

-- `Source`
pub record Source (W : Type 0) : Type 0 where
  pub active_bundle : Str → W → Found BundleRef × W
  pub version : Str → Str → Str → W → Found Version × W

abbrev pub mem_source : Source MemStore
mem_source = record {
  active_bundle = λ org m. (get_active_bundle org m, m);
  version = λ org policy_id hash m. (get_version org policy_id hash m, m);
}

pub record Entry : Type 0 where
  pub hash : Str
  pub policy : Policy

abbrev pub Entries : Type 0
Entries = Dict Entry

-- `store`
unfoldable pub store_entry : Str → Entry → Entries → Entries
store_entry org e cache = insert org e cache

abbrev pub source_error : StoreError → Error
source_error bundle_not_found = no_active_bundle
source_error _ = load_failed

module _ {W : Type 0} (content_version : List PredicateDoc → Option Str) (src : Source W) where
  compiled : Found Version → Engine.Result Policy
  compiled (err e) = Engine.err load_failed
  compiled (ok v) = elim (compile content_version v) [
    | loaded pol ↦ Engine.ok pol
    | failed e ↦ Engine.err load_failed
  ]

  unfoldable pub compile_ref : BundleRef → W → Engine.Result Policy × W
  unfolding compiled
  compile_ref ref w =
      let step = src.version ref.org_id ref.policy_id ref.version_hash w in
      (compiled step.0, step.1)

  keep : Str → Str → Engine.Result Policy → Entries → Entries
  keep org hash (Engine.ok pol) cache = store_entry org (record { hash = hash; policy = pol }) cache
  keep org hash (Engine.err e) cache = cache

  -- `load`
  unfoldable pub load : Str → Entries × W → Engine.Result Policy × (Entries × W)
  unfolding compile_ref keep
  load org (cache, w) =
      let step = src.active_bundle org w in
      elim step.0 [
        | err e ↦ (Engine.err (source_error e), (cache, step.1))
        | ok ref ↦
            let c = compile_ref ref step.1 in (c.0, (keep org ref.version_hash c.0 cache, c.1))
      ]

  -- `Provider.Active`
  unfoldable pub active : Str → Entries × W → Engine.Result Policy × (Entries × W)
  active org (cache, w) = elim (lookup org cache) [
    | some e ↦ (Engine.ok e.policy, (cache, w))
    | none ↦ load org (cache, w)
  ]

  -- `Provider.Invalidate`: the error, if there is one.
  unfoldable pub invalidate : Str → Entries × W → Option Error × (Entries × W)
  invalidate org s =
      let r = load org s in (elim r.0 [ Engine.ok pol ↦ none | Engine.err e ↦ some e ], r.1)

  -- `ok && cur.hash == ref.VersionHash`
  abbrev unchanged : Option Entry → Str → Bool
  unchanged none hash = false
  unchanged (some e) hash = str_eq e.hash hash

  -- `refreshOrg`
  unfoldable pub refresh_org : Str → Entries × W → Entries × W
  unfolding compile_ref keep
  refresh_org org (cache, w) =
      let step = src.active_bundle org w in
      elim step.0 [
        | err e ↦ (cache, step.1)
        | ok ref ↦
            let c = compile_ref ref step.1 in
            if unchanged (lookup org cache) ref.version_hash
            then (cache, step.1)
            else (keep org ref.version_hash c.0 cache, c.1)
      ]

  -- The loop of `refreshAll`, over the organisations that are cached when it starts.
  unfoldable pub refresh_each : List Str → Entries × W → Entries × W
  refresh_each [] s = s
  refresh_each (org ∷ orgs) s = refresh_each orgs (refresh_org org s)

  unfoldable pub refresh_all : Entries × W → Entries × W
  unfolding refresh_each
  refresh_all (cache, w) = refresh_each (map (λ e. e.0) cache) (cache, w)
