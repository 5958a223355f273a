-- ===== src/Loader.antt =====
-- The loader of policies (services/authorize-svc/internal/policy/policy.go): the checks on a
-- decoded file and the rules that it builds. The content hash of a file without a version (JSON,
-- its canonical form, SHA-256) is a parameter; `none` is its error.
pub mod Sound
use borges_labs.Base.{
  ℕ, suc, ℤ, pos, negsuc, ◌&&◌, ◌||◌, Option, none, some, List, [], ◌∷◌, Str, str, str_eq, is_empty,
  contains, ltb, leb, if◌then◌else◌, Dict,
}
use borges_labs.Predicate.{
  RuleBase, Predicate, per_transaction_limit, vendor_allowlist, vendor_blocklist, agent_permission,
  time_window, jurisdiction_currency,
}
use borges_labs.Policies.{Policy}

-- `predicateDoc`; a nil pointer is `none`.
pub record PredicateDoc : Type 0 where
  pub id : Str
  pub type : Str
  pub agents : List Str
  pub max : Str
  pub currency : Str
  pub vendors : List Str
  pub allowed_actions : List Str
  pub allowed_targets : List Str
  pub start_minute : Option ℤ
  pub end_minute : Option ℤ
  pub weekdays : List ℤ
  pub allowed : Dict (List Str)

pub record File : Type 0 where
  pub version : Str
  pub predicates : List PredicateDoc

pub data BuildError : Type 0 where
  max_required vendors_required permission_required minutes_required : BuildError
  start_out_of_range end_out_of_range weekday_out_of_range allowed_required : BuildError
  not_local type_required unknown_type : BuildError

pub data Built (A : Type 0) : Type 0 where
  built : A → Built A
  refused : BuildError → Built A

-- `id_required` and `duplicate_id` name the position in the file.
pub data LoadError : Type 0 where
  undecodable no_content_hash : LoadError
  id_required : ℕ → LoadError
  duplicate_id : ℕ → Str → LoadError
  invalid : Str → Str → BuildError → LoadError

pub data Loaded (A : Type 0) : Type 0 where
  loaded : A → Loaded A
  failed : LoadError → Loaded A

-- `validMinute`: the minute, if it is in range.
unfoldable pub valid_minute : ℤ → Option ℕ
valid_minute (pos n) = if ltb n 1440 then some n else none
valid_minute (negsuc n) = none

abbrev pub valid_weekday : ℤ → Option ℕ
valid_weekday (pos n) = if leb n 6 then some n else none
valid_weekday (negsuc n) = none

abbrev pub prepend : Option ℕ → Option (List ℕ) → Option (List ℕ)
prepend (some d) (some ds) = some (d ∷ ds)
prepend (some d) none = none
prepend none rest = none

-- The loop over the weekdays.
unfoldable pub valid_weekdays : List ℤ → Option (List ℕ)
valid_weekdays [] = some []
valid_weekdays (d ∷ ds) = prepend (valid_weekday d) (valid_weekdays ds)

-- The branch of `build` for a time window, after its pointers are read.
build_window : RuleBase → Option ℕ → Option ℕ → Option (List ℕ) → Built Predicate
build_window b none end days = refused start_out_of_range
build_window b (some start) none days = refused end_out_of_range
build_window b (some start) (some end) none = refused weekday_out_of_range
build_window b (some start) (some end) (some days) = built (time_window b start end days)

build_minutes : RuleBase → Option ℤ → Option ℤ → List ℤ → Built Predicate
unfolding build_window
build_minutes b none end days = refused minutes_required
build_minutes b (some start) none days = refused minutes_required
build_minutes b (some start) (some end) days =
    build_window b (valid_minute start) (valid_minute end) (valid_weekdays days)

-- `predicateDoc.build`
unfoldable pub build : PredicateDoc → Built Predicate
unfolding build_minutes
build d =
    let b : RuleBase = record { id = d.id; agents = d.agents } in
    if str_eq d.type (str "per_transaction_limit")
    then if is_empty d.max
      then refused max_required
      else built (per_transaction_limit b d.max d.currency)
    else if str_eq d.type (str "vendor_allowlist")
    then if is_empty d.vendors
      then refused vendors_required
      else built (vendor_allowlist b d.vendors)
    else if str_eq d.type (str "vendor_blocklist")
    then built (vendor_blocklist b d.vendors)
    else if str_eq d.type (str "agent_permission")
    then if is_empty d.allowed_actions && is_empty d.allowed_targets
      then refused permission_required
      else built (agent_permission b d.allowed_actions d.allowed_targets)
    else if str_eq d.type (str "time_window")
    then build_minutes b d.start_minute d.end_minute d.weekdays
    else if str_eq d.type (str "jurisdiction_currency")
    then if is_empty d.allowed
      then refused allowed_required
      else built (jurisdiction_currency b d.allowed)
    else if str_eq d.type (str "rolling_budget")
        || (str_eq d.type (str "sanctions_screen") || str_eq d.type (str "vendor_risk"))
    then refused not_local
    else if is_empty d.type
    then refused type_required
    else refused unknown_type

-- One rule and the rest of the loop.
append_built : PredicateDoc → Built Predicate → Loaded (List Predicate) → Loaded (List Predicate)
append_built d (refused e) rest = failed (invalid d.id d.type e)
append_built d (built p) (failed e) = failed e
append_built d (built p) (loaded ps) = loaded (p ∷ ps)

-- The loop of `Parse`, from a position and with the ids seen before.
unfoldable pub load_docs : ℕ → List Str → List PredicateDoc → Loaded (List Predicate)
unfolding append_built
load_docs i seen [] = loaded []
load_docs i seen (d ∷ ds) =
    let rest = load_docs (suc i) (d.id ∷ seen) ds in
    if is_empty d.id
    then failed (id_required i)
    else if contains seen d.id
    then failed (duplicate_id i d.id)
    else append_built d (build d) rest

module _ (content_version : List PredicateDoc → Option Str) where
  -- `version := f.Version; if version == "" { ... }`
  version_of : File → Option Str
  version_of f = if is_empty f.version then content_version f.predicates else some f.version

  with_version : Loaded (List Predicate) → Option Str → Loaded Policy
  with_version (failed e) version = failed e
  with_version (loaded ps) none = failed no_content_hash
  with_version (loaded ps) (some v) = loaded (record { version = v; predicates = ps; budgets = [] })

  -- `Parse`, from the decoded file; `none` is the decoder's error.
  unfoldable pub parse : Option File → Loaded Policy
  unfolding version_of with_version
  parse none = failed undecodable
  parse (some f) = with_version (load_docs 0 [] f.predicates) (version_of f)
