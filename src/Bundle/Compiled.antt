-- ===== src/Bundle/Compiled.antt =====
-- What a published version compiles to.
use mathlib.Core.Path.{subst}
use borges_labs.Base.{
  ◌≡◌, refl, sym, ap, ◌∙◌, Bool, false, ◌||◌, not, Option, none, some, List, [], ◌∷◌, map, Str,
  arith, is_empty, All, Bool-cases, Option-cases, inl, inr, if◌then◌else◌,
}
use borges_labs.Predicate.{rule_id}
use borges_labs.Policies.{Policy, BudgetDecl}
use borges_labs.Authoring.{Rule}
use borges_labs.Loader.{PredicateDoc, File, Loaded, loaded, failed, parse}
use borges_labs.Loader.Sound.{IsSound, parse-IsSound}
use borges_labs.Bundle.{
  recode, recode_all, prepend_doc, is_budget, is_dropped, budget_of, sort_rules, with_budgets,
  compile_rules,
}

-- The elements that pass a test.
abbrev pub select : (Rule → Bool) → List Rule → List Rule
select p [] = []
select p (r ∷ rs) = let rest = select p rs in if p r then r ∷ rest else rest

abbrev pub is_local : Rule → Bool
is_local r = not (is_budget r || is_dropped r)

sort_rules_lem :
    (rules : List Rule)
    → ((sort_rules rules).0 ≡ map budget_of (select is_budget rules))
      × ((sort_rules rules).1 ≡ select is_local rules)
unfolding sort_rules
sort_rules_lem [] = (refl, refl)
sort_rules_lem (r ∷ rules) = elim (Bool-cases (is_budget r)) [
  | inl b ↦ rw b (ap (λ bs. budget_of r ∷ bs) (sort_rules_lem rules).0, (sort_rules_lem rules).1)
  | inr b ↦ elim (Bool-cases (is_dropped r)) [
    | inl d ↦ rw (b, d) (sort_rules_lem rules)
    | inr d ↦ rw (b, d) ((sort_rules_lem rules).0, ap (λ rs. r ∷ rs) (sort_rules_lem rules).1)
  ]
]

recode-id : (r : Rule) {d : PredicateDoc} → recode r ≡ some d → d.id ≡ r.id
unfolding recode
recode-id r e = ground arith

recoded_head :
    (r : Rule) (rs : List Rule) (d : PredicateDoc) (ds : List PredicateDoc)
    → recode_all (r ∷ rs) ≡ some (d ∷ ds)
    → recode r ≡ some d
unfolding recode_all prepend_doc
recoded_head r rs d ds e = ground arith

recoded_tail :
    (r : Rule) (rs : List Rule) (d : PredicateDoc) (ds : List PredicateDoc)
    → recode_all (r ∷ rs) ≡ some (d ∷ ds)
    → recode_all rs ≡ some ds
unfolding recode_all prepend_doc
recoded_tail r rs d ds e = ground arith

recode_all-ids :
    (rs : List Rule) (ds : List PredicateDoc)
    → recode_all rs ≡ some ds
    → map (λ d. d.id) ds ≡ map (λ (r : Rule). r.id) rs
unfolding recode_all prepend_doc
recode_all-ids [] [] e = refl
recode_all-ids [] (d ∷ ds) e = cc
recode_all-ids (r ∷ rs) [] e = ground arith
recode_all-ids (r ∷ rs) (d ∷ ds) e =
    ap (λ x. x ∷ map (λ (d : PredicateDoc). d.id) ds) (recode-id r (recoded_head r rs d ds e))
    ∙ ap (λ xs. r.id ∷ xs) (recode_all-ids rs ds (recoded_tail r rs d ds e))

with_budgets-loaded :
    (bs : List BudgetDecl) (l : Loaded Policy) {pol : Policy}
    → with_budgets bs l ≡ loaded pol
    → (p : Policy) × (l ≡ loaded p) × (pol ≡ record p { budgets = bs })
unfolding with_budgets
with_budgets-loaded bs (loaded p) {pol} e = (p, refl, ground arith)
with_budgets-loaded bs (failed x) e = cc

decoded : Str → List Rule → Option File
decoded version rules = elim (recode_all rules) [
  | none ↦ none
  | some ds ↦ some (record { version = version; predicates = ds })
]

decoded-some :
    (version : Str) (rules : List Rule) (ds : List PredicateDoc)
    → recode_all rules ≡ some ds
    → decoded version rules ≡ some (record { version = version; predicates = ds })
unfolding decoded
decoded-some version rules ds e = rw (decoded, e) refl

decoded-IsSound :
    (content_version : List PredicateDoc → Option Str) (version : Str) (rules : List Rule)
    (p : Policy)
    → is_empty version ≡ false
    → parse content_version (decoded version rules) ≡ loaded p
    → (p.version ≡ version)
      × (map rule_id p.predicates ≡ map (λ (r : Rule). r.id) rules)
      × All IsSound p.predicates
unfolding decoded
decoded-IsSound c version rules p n e = elim (Option-cases (recode_all rules)) [
  | inl none_read ↦ absurd (unfold parse in ground arith)
  | inr (ds, read) ↦
      let facts =
        parse-IsSound c (record { version = version; predicates = ds }) {pol = p}
          (sym (ap (parse c) (decoded-some version rules ds read)) ∙ e) in
      (ground (arith, facts.0), facts.1 ∙ recode_all-ids rules ds read, facts.3)
]

-- A rule set that compiles under a version that is not empty gives a policy of that version: its
-- budgets are the rolling budgets and its rules have the ids of the local rules, both in their
-- order, and each rule has the fields that its type needs.
pub compile_rules-IsSound :
    (content_version : List PredicateDoc → Option Str) (version : Str) (rules : List Rule)
    {pol : Policy}
    → is_empty version ≡ false
    → compile_rules content_version version rules ≡ loaded pol
    → (pol.version ≡ version)
      × (pol.budgets ≡ map budget_of (select is_budget rules))
      × (map rule_id pol.predicates ≡ map (λ (r : Rule). r.id) (select is_local rules))
      × All IsSound pol.predicates
unfolding compile_rules
compile_rules-IsSound c version rules {pol} n e =
    let (p, parsed, same) = with_budgets-loaded (sort_rules rules).0 _ e in
    let facts = decoded-IsSound c version (sort_rules rules).1 p n (unfold decoded in parsed) in
    let sorted = sort_rules_lem rules in
    (
      ap (λ (q : Policy). q.version) same ∙ facts.0,
      ap (λ (q : Policy). q.budgets) same ∙ sorted.0,
      ap (λ (q : Policy). map rule_id q.predicates) same
          ∙ facts.1
          ∙ ap (map (λ (r : Rule). r.id)) sorted.1,
      subst (λ (q : Policy). All IsSound q.predicates) (sym same) facts.2,
    )

-- A rule set compiles where its local rules load.
pub compile_rules_local :
    (content_version : List PredicateDoc → Option Str) (version : Str) (rules : List Rule)
    (ds : List PredicateDoc) (q : Policy)
    → recode_all (select is_local rules) ≡ some ds
    → parse content_version (some (record { version = version; predicates = ds })) ≡ loaded q
    → compile_rules content_version version rules
      ≡ loaded (record q { budgets = map budget_of (select is_budget rules) })
unfolding compile_rules with_budgets
compile_rules_local c version rules ds q read made =
    let (budgets, local) = sort_rules_lem rules in
    rw (compile_rules, local, read, made, budgets) refl
