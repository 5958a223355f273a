-- ===== src/Validation/Servable.antt =====
-- What validation promises to the decision plane.
use borges_labs.Base.{
  ℕ, suc, ◌≡◌, refl, ap, ◌∙◌, inl, inr, true, false, ◌||◌, Option, some, List, [], ◌∷◌, ◌++◌, Str,
  str, arith, is_empty, str_eq, str_eq_iff, All, lookup, insert, lookup-insert, Option-cases,
  Bool-cases, if◌then◌else◌, Dict, is_some, contains,
}
use borges_labs.Authoring.{Rule}
use borges_labs.Policies.{Policy}
use borges_labs.Loader.{PredicateDoc, loaded, parse}
use borges_labs.Bundle.{recode_all, compile_rules}
use borges_labs.Bundle.Compiled.{select, is_local, compile_rules_local}
use borges_labs.Loader.Sound.{AreFresh, Loaded-cases, parse_version, parse_none}
use borges_labs.Validation.{
  Document, Problem, is_local_type, is_enriched_type, duplicates, local_rules, check_engine_parity,
  parity_of, validate,
}

-- The rule is of one of the nine types.
abbrev pub IsKnown : Rule → Type 0
IsKnown r = (is_local_type r.type || is_enriched_type r.type) ≡ true

enriched_not_local : (t : Str) → is_enriched_type t ≡ true → is_local_type t ≡ false
unfolding is_enriched_type is_local_type str_eq
enriched_not_local t e = elim (Bool-cases (str_eq t (str "rolling_budget"))) [
  | inl it ↦ rw ((str_eq_iff t (str "rolling_budget")).0 it) refl
  | inr no_budget ↦ elim (Bool-cases (str_eq t (str "sanctions_screen"))) [
    | inl it ↦ rw ((str_eq_iff t (str "sanctions_screen")).0 it) refl
    | inr no_screen ↦ rw ((str_eq_iff t (str "vendor_risk")).0 (ground arith)) refl
  ]
]

is_local_lem : (r : Rule) → IsKnown r → is_local r ≡ is_local_type r.type
unfolding is_enriched_type
is_local_lem r k = elim (Bool-cases (is_enriched_type r.type)) [
  | inl e ↦ ground (arith, enriched_not_local r.type e)
  | inr other ↦ ground arith
]

local_rules_lem : (rs : List Rule) → All IsKnown rs → select is_local rs ≡ local_rules rs
unfolding local_rules
local_rules_lem [] k = refl
local_rules_lem (r ∷ rs) k =
    let rest = local_rules_lem rs k.1 in
    elim (Bool-cases (is_local_type r.type)) [
      | inl local ↦ rw (local, is_local_lem r k.0 ∙ local) (ap (λ ss. r ∷ ss) rest)
      | inr other ↦ rw (other, is_local_lem r k.0 ∙ other) rest
    ]

pub is_empty_nil : {A : Type 0} (xs : List A) → is_empty xs ≡ true → xs ≡ []
is_empty_nil [] e = refl
is_empty_nil (x ∷ xs) e = cc

++_nil : {A : Type 0} (xs ys : List A) → xs ++ ys ≡ [] → (xs ≡ []) × (ys ≡ [])
++_nil [] ys e = (refl, e)
++_nil (x ∷ xs) ys e = cc

-- The ids that are not empty.
abbrev pub given_ids : List Rule → List Str
given_ids [] = []
given_ids (r ∷ rs) = let rest = given_ids rs in if is_empty r.id then rest else r.id ∷ rest

-- A map of first places has the ids of a list.
abbrev Agrees : Dict ℕ → List Str → Type 0
Agrees seen ids = (x : Str) → is_some (lookup x seen) ≡ contains ids x

Agrees-insert :
    (seen : Dict ℕ) (ids : List Str) (id : Str) (i : ℕ)
    → Agrees seen ids
    → Agrees (insert id i seen) (id ∷ ids)
unfolding contains
Agrees-insert seen ids id i a x = rw (lookup-insert id x i seen) (ground (arith, a x))

duplicates-AreFresh :
    (i : ℕ) (seen : Dict ℕ) (ids : List Str) (rs : List Rule)
    → Agrees seen ids
    → duplicates i seen rs ≡ []
    → AreFresh ids (given_ids rs)
unfolding duplicates
duplicates-AreFresh i seen ids [] a e = tt
duplicates-AreFresh i seen ids (r ∷ rs) a e = elim (Bool-cases (is_empty r.id)) [
  | inl absent ↦ rw absent (duplicates-AreFresh (suc i) seen ids rs a (ground arith))
  | inr given ↦ elim (Option-cases (lookup r.id seen)) [
    | inr (first, known) ↦ absurd (ground arith)
    | inl new ↦ rw given (
      given,
      ground (arith, a r.id),
      duplicates-AreFresh (suc i) (insert r.id i seen) (r.id ∷ ids) rs
          (Agrees-insert seen ids r.id i a) (ground arith),
    )
  ]
]

module _ (content_version : List PredicateDoc → Option Str) where
  parity_file :
      (rules : List Rule)
      → check_engine_parity content_version rules ≡ []
      → is_empty (local_rules rules) ≡ false
      → (ds : List PredicateDoc) × (p : Policy) × (recode_all (local_rules rules) ≡ some ds)
        × (parse content_version (some (record { version = []; predicates = ds })) ≡ loaded p)
  unfolding check_engine_parity parity_of
  parity_file rules e n = elim (Option-cases (recode_all (local_rules rules))) [
    | inl bad ↦ absurd (unfold parse in ground arith)
    | inr (ds, read) ↦
        elim (Loaded-cases
          (parse content_version (some (record { version = []; predicates = ds })))) [
            | inl (x, bad) ↦ absurd (ground arith)
            | inr (p, made) ↦ (ds, p, read, made)
          ]
  ]

  -- Where the parity check has nothing to object, rules of known types compile under any version.
  pub parity-compiles :
      (version : Str) (rules : List Rule)
      → All IsKnown rules
      → check_engine_parity content_version rules ≡ []
      → is_empty version ≡ false
      → (pol : Policy) × (compile_rules content_version version rules ≡ loaded pol)
  unfolding recode_all
  parity-compiles version rules known e n =
      let same = local_rules_lem rules known in
      elim (Bool-cases (is_empty (local_rules rules))) [
        | inl empty ↦
            let (q, made) = parse_none content_version version n in
            (
              _,
              compile_rules_local content_version version rules [] q
                  (ap recode_all (same ∙ is_empty_nil _ empty)) made,
            )
        | inr some_local ↦
            let (ds, p, read, parsed) = parity_file rules e some_local in
            let (q, made) = parse_version content_version ds version p parsed n in
            (
              _,
              compile_rules_local content_version version rules ds q (ap recode_all same ∙ read)
                  made,
            )
      ]

  -- A policy without a problem has no rule id twice, and its rules compile for the decision plane
  -- under every version hash. The schema lets only the nine types of rule pass.
  pub validate-servable :
      (schema_problems : Document → List Problem) (doc : Document) (version : Str)
      → (schema_problems doc ≡ [] → All IsKnown doc.rules)
      → is_empty version ≡ false
      → validate content_version schema_problems doc ≡ []
      → AreFresh [] (given_ids doc.rules)
        × ((pol : Policy) × (compile_rules content_version version doc.rules ≡ loaded pol))
  unfolding validate lookup contains
  validate-servable schema_problems doc version known n e =
      let (schema, rest) = ++_nil (schema_problems doc) _ e in
      let (once, parity) = ++_nil (duplicates 0 [] doc.rules) _ rest in
      (
        duplicates-AreFresh 0 [] [] doc.rules (λ x. refl) once,
        parity-compiles version doc.rules (known schema) parity n,
      )
