-- ===== src/Validation.antt =====
-- The validation of a policy (services/authorize-svc/internal/policyctl/validate.go). The JSON
-- schema's validator is a parameter that lists the problems of a document; a problem keeps what
-- its texts are printed from. The order of the problems, which is that of their texts, is left
-- out, and so is the JSON behind the document, which for a rule is Bundle's `recode`.
pub mod Servable
use borges_labs.Base.{
  ℕ, suc, Bool, ◌||◌, Option, none, some, List, [], ◌∷◌, ◌++◌, Str, str, str_eq, is_empty,
  if◌then◌else◌, Dict, lookup, insert,
}
use borges_labs.Authoring.{Rule}
use borges_labs.Policies.{Policy}
use borges_labs.Loader.{PredicateDoc, File, LoadError, Loaded, loaded, failed, parse}
use borges_labs.Bundle.{recode_all}

-- What a client sends, and the schema describes.
pub record Document : Type 0 where
  pub org_id : Str
  pub name : Str
  pub agents : List Str
  pub rules : List Rule

pub data Problem : Type 0 where
  schema_problem : Str → Str → Problem
  duplicate_rule : ℕ → Str → ℕ → Problem
  parity_problem : LoadError → Problem
  required : Str → Problem

-- `localRuleTypes`
unfoldable pub is_local_type : Str → Bool
is_local_type t =
    str_eq t (str "per_transaction_limit")
    || (str_eq t (str "vendor_allowlist")
        || (str_eq t (str "vendor_blocklist")
            || (str_eq t (str "agent_permission")
                || (str_eq t (str "time_window") || str_eq t (str "jurisdiction_currency")))))

-- `enrichedRuleTypes`
unfoldable pub is_enriched_type : Str → Bool
is_enriched_type t =
    str_eq t (str "rolling_budget")
    || (str_eq t (str "sanctions_screen") || str_eq t (str "vendor_risk"))

-- The loop over the ids, with the first place of each id seen before.
unfoldable pub duplicates : ℕ → Dict ℕ → List Rule → List Problem
duplicates i seen [] = []
duplicates i seen (r ∷ rs) =
    let same = duplicates (suc i) seen rs in
    let more = duplicates (suc i) (insert r.id i seen) rs in
    if is_empty r.id
    then same
    else elim (lookup r.id seen) [ some first ↦ duplicate_rule i r.id first ∷ same | none ↦ more ]

-- The loop of `checkEngineParity`.
unfoldable pub local_rules : List Rule → List Rule
local_rules [] = []
local_rules (r ∷ rs) = let rest = local_rules rs in if is_local_type r.type then r ∷ rest else rest

-- The wire document of rules, as the loader decodes it; `none` is the decoder's error.
abbrev pub wire_file : Str → List Rule → Option File
wire_file version rules = elim (recode_all rules) [
  | none ↦ none
  | some ds ↦ some (record { version = version; predicates = ds })
]

module _ (content_version : List PredicateDoc → Option Str) where
  parity_of : Loaded Policy → List Problem
  parity_of (loaded pol) = []
  parity_of (failed e) = parity_problem e ∷ []

  -- `checkEngineParity`: at most one problem.
  unfoldable pub check_engine_parity : List Rule → List Problem
  unfolding parity_of
  check_engine_parity rules =
      if is_empty (local_rules rules)
      then []
      else parity_of (parse content_version (wire_file [] (local_rules rules)))

  -- `Validate`: the problems, of which there are none where it returns nil.
  unfoldable pub validate : (Document → List Problem) → Document → List Problem
  validate schema_problems doc =
      schema_problems doc ++ (duplicates 0 [] doc.rules ++ check_engine_parity doc.rules)
