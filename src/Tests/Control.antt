-- ===== src/Tests/Control.antt =====
-- Published policies and their bundles, and the limiter.
use borges_labs.Base.{
  ◌≡◌, ◌≤◌, ◌/◌, refl, Option, none, some, List, [], ◌∷◌, map, Str, str, str_eq, arith, All, lookup,
  insert, contains,
}
use borges_labs.Predicate.{rule_id}
use borges_labs.Policies.{Policy}
use borges_labs.Policies as Engine
use borges_labs.Authoring.{
  Rule, Version, BundleRef, MemStore, empty_store, ok, err, store_failed, put_version, get_version,
  set_active_bundle, get_active_bundle, store_key,
}
use borges_labs.Authoring.Immutable.{Write, put_write, bundle_write}
use borges_labs.Authoring.Immutable as Immutable
use borges_labs.Loader.{PredicateDoc, File, Loaded, loaded, failed, parse, load_docs, build}
use borges_labs.Loader.Sound.{IsSound}
use borges_labs.Bundle.{
  Source, mem_source, Entry, Entries, recode, recode_all, sort_rules, compile_rules, compile,
  compile_ref, load, active, invalidate, refresh_all, store_entry, is_budget, budget_of,
}
use borges_labs.Bundle.Compiled.{select, is_local, compile_rules-IsSound}
use borges_labs.Bundle.Cache.{IsPublished, serve, step, run, run-AllPublished}
use borges_labs.Bundle.Outage.{refresh_all_down}
use borges_labs.RateLimit.{Limits, unix}
use borges_labs.RateLimit.Bound.{Call, allowed_in, run-within_limits}
use borges_labs.RateLimit.Bound as Bound
use borges_labs.Evaluation.{no_signature}
use borges_labs.Tests.Data.{noon, org, acme}

abbrev pub vendors : Rule
vendors = record {
  id = str "vendors";
  type = str "vendor_allowlist";
  agents = [];
  max = [];
  currency = [];
  vendors = acme ∷ [];
  allowed_actions = [];
  allowed_targets = [];
  start_minute = none;
  end_minute = none;
  weekdays = [];
  allowed = [];
  window = [];
  limit = [];
  provider = [];
  threshold = none;
  fail_mode = [];
}

abbrev daily : Rule
daily = record vendors {
  id = str "daily";
  type = str "rolling_budget";
  vendors = [];
  window = str "day";
  limit = str "50.00";
  currency = str "USD";
}

abbrev pub rules : List Rule
rules = daily ∷ vendors ∷ []

-- No version is left out in these tests.
abbrev pub no_hash : List PredicateDoc → Option Str
no_hash ds = none

abbrev policy_of : Loaded Policy → Policy
policy_of (loaded p) = p
policy_of (failed e) = record { version = []; predicates = []; budgets = [] }

abbrev made : Policy
made = policy_of (compile_rules no_hash (str "polv_1") rules)

compiles : compile_rules no_hash (str "polv_1") rules ≡ loaded made
unfolding compile_rules sort_rules recode_all recode parse load_docs build str_eq contains
compiles = refl

compile_rules-IsSound_example :
    (made.version ≡ str "polv_1")
    × (made.budgets ≡ map budget_of (select is_budget rules))
    × (map rule_id made.predicates ≡ map (λ (r : Rule). r.id) (select is_local rules))
    × All IsSound made.predicates
compile_rules-IsSound_example = compile_rules-IsSound no_hash (str "polv_1") rules refl compiles

abbrev file : File
file = record {
  version = str "v1";
  predicates =
      (record {
        id = str "vendors";
        type = str "vendor_allowlist";
        agents = [];
        max = [];
        currency = [];
        vendors = acme ∷ [];
        allowed_actions = [];
        allowed_targets = [];
        start_minute = none;
        end_minute = none;
        weekdays = [];
        allowed = [];
      })
      ∷ [];
}

abbrev read : Policy
read = policy_of (parse no_hash (some file))

parses : parse no_hash (some file) ≡ loaded read
unfolding parse load_docs build str_eq contains
parses = refl

abbrev first : Version
first = record {
  version_hash = str "polv_1";
  policy_id = str "p1";
  org_id = org;
  name = str "payments";
  agents = [];
  rules = rules;
  signature = no_signature;
  author = str "ann";
  parent_hash = [];
  published_at = noon;
}

abbrev ref : BundleRef
ref = record { org_id = org; policy_id = str "p1"; version_hash = str "polv_1"; updated_at = noon }

abbrev published : MemStore
published = set_active_bundle ref (put_version first empty_store).1

-- A later version with the same hash and other rules is not taken.
abbrev forged : Version
forged = record first { rules = [] }

put : get_version org (str "p1") (str "polv_1") published ≡ ok first
unfolding get_version put_version set_active_bundle lookup insert store_key str_eq
put = refl

run-immutable_example :
    get_version org
      (str "p1")
      (str "polv_1")
      (Immutable.run (put_write forged ∷ bundle_write ref ∷ []) published)
    ≡ ok first
run-immutable_example =
    Immutable.run-immutable (put_write forged ∷ bundle_write ref ∷ []) org (str "p1") (str "polv_1")
      published put

abbrev cached : Entry
cached = record { hash = str "polv_1"; policy = made }

served : lookup org (run no_hash (serve org ∷ []) ([], published)).0 ≡ some cached
unfolding run lookup insert active load compile_ref compile store_entry get_active_bundle
    get_version put_version set_active_bundle store_key str_eq compile_rules sort_rules recode_all
    recode parse load_docs build contains step
served = refl

run-AllPublished_example :
    IsPublished no_hash (run no_hash (serve org ∷ []) ([], published)).1 cached
run-AllPublished_example = run-AllPublished no_hash (serve org ∷ []) published org served

-- A store that answers nothing.
abbrev down : Source Unit
down = record {
  active_bundle = λ org w. (err store_failed, w);
  version = λ org policy_id hash w. (err store_failed, w);
}

abbrev warm : Entries
warm = (org, cached) ∷ []

warm_entry : lookup org warm ≡ some cached
unfolding lookup str_eq
warm_entry = refl

refresh_all_down_example :
    ((refresh_all no_hash down (warm, tt)).0 ≡ warm)
    × ((active no_hash down org (refresh_all no_hash down (warm, tt))).0 ≡ Engine.ok made)
refresh_all_down_example = refresh_all_down no_hash down warm tt org (λ o w. refl) warm_entry

invalidates : (invalidate no_hash mem_source org (warm, published)).0 ≡ none
unfolding invalidate lookup insert load compile_ref compile get_active_bundle get_version
    put_version set_active_bundle store_key str_eq compile_rules sort_rules recode_all recode parse
    load_docs build contains
invalidates = refl

-- Three calls in one second, with a ceiling of two.
abbrev calls : List Call
calls = (noon, str "a") ∷ (noon, str "a") ∷ (noon, str "b") ∷ (noon, str "a") ∷ []

abbrev limits : Limits
limits = record { per_minute = 60; per_second = 2 }

run-within_limits_example :
    (allowed_in unix (str "a") (unix noon) (Bound.run limits calls ([], [])).0 ≤ 2)
    × (allowed_in
          (λ now. unix now / 60)
          (str "a")
          (unix noon / 60)
          (Bound.run limits calls ([], [])).0
        ≤ 60)
run-within_limits_example =
    run-within_limits limits calls noon (str "a") (unix noon) (unix noon / 60) (omega arith)
      (omega arith) (ground arith)
