-- ===== src/Loader/Sound.antt =====
-- The files that the loader accepts, and the policies that they give.
use mathlib.Core.Path.{subst}
use borges_labs.Base.{
  ℕ, suc, ℤ, ◌≡◌, ◌≤◌, ◌<◌, ◌⊎◌, refl, ap, ◌∙◌, false, ◌&&◌, ◌||◌, str, str_eq, Option, none, some,
  List, [], ◌∷◌, map, Str, arith, is_empty, contains, All, if◌then◌else◌, Bool-cases, inl, inr,
}
use borges_labs.Predicate.{
  RuleBase, base, Predicate, per_transaction_limit, vendor_allowlist, vendor_blocklist,
  agent_permission, time_window, jurisdiction_currency, rule_id,
}
use borges_labs.Policies.{Policy}
use borges_labs.Loader.{
  PredicateDoc, File, Built, built, refused, LoadError, Loaded, loaded, failed, valid_minute,
  valid_weekdays, build, build_minutes, build_window, append_built, load_docs, parse, version_of,
  with_version,
}

abbrev pub IsSound : Predicate → Type 0
IsSound (per_transaction_limit b max currency) = is_empty max ≡ false
IsSound (vendor_allowlist b vendors) = is_empty vendors ≡ false
IsSound (vendor_blocklist b vendors) = Unit
IsSound (agent_permission b actions targets) = (is_empty actions && is_empty targets) ≡ false
IsSound (time_window b start end days) = (start < 1440) × (end < 1440) × All (λ d. d ≤ 6) days
IsSound (jurisdiction_currency b allowed) = is_empty allowed ≡ false

-- Each id is not empty and neither seen before nor repeated.
abbrev pub AreFresh : List Str → List Str → Type 0
AreFresh seen [] = Unit
AreFresh seen (x ∷ xs) = (is_empty x ≡ false) × (contains seen x ≡ false) × AreFresh (x ∷ seen) xs

valid_minute_lem : (m : ℤ) (n : ℕ) → valid_minute m ≡ some n → n < 1440
unfolding valid_minute
valid_minute_lem m n e = ground arith

valid_weekdays_lem : (ds : List ℤ) (ns : List ℕ) → valid_weekdays ds ≡ some ns → All (λ d. d ≤ 6) ns
unfolding valid_weekdays
valid_weekdays_lem [] ns e = ground arith
valid_weekdays_lem (d ∷ ds) [] e = tt
valid_weekdays_lem (d ∷ ds) (n ∷ ns) e = (ground arith, valid_weekdays_lem ds ns (ground arith))

-- A rule with the id of its document, and its fields sound.
abbrev Fits : RuleBase → Built Predicate → Type 0
Fits b (built p) = (base p ≡ b) × IsSound p
Fits b (refused e) = Unit

build_window-Fits :
    (b : RuleBase) (start end : Option ℕ) (days : Option (List ℕ))
    → ((n : ℕ) → start ≡ some n → n < 1440)
    → ((n : ℕ) → end ≡ some n → n < 1440)
    → ((ns : List ℕ) → days ≡ some ns → All (λ d. d ≤ 6) ns)
    → Fits b (build_window b start end days)
unfolding build_window
build_window-Fits b none end days h k l = tt
build_window-Fits b (some s) none days h k l = tt
build_window-Fits b (some s) (some e) none h k l = tt
build_window-Fits b (some s) (some e) (some ds) h k l = (refl, (h s refl, k e refl, l ds refl))

build_minutes-Fits :
    (b : RuleBase) (start end : Option ℤ) (days : List ℤ) → Fits b (build_minutes b start end days)
unfolding build_minutes
build_minutes-Fits b none end days = tt
build_minutes-Fits b (some s) none days = tt
build_minutes-Fits b (some s) (some e) days =
    build_window-Fits b (valid_minute s) (valid_minute e) (valid_weekdays days) (valid_minute_lem s)
      (valid_minute_lem e) (valid_weekdays_lem days)

build-Fits : (d : PredicateDoc) → Fits (record { id = d.id; agents = d.agents }) (build d)
unfolding build
build-Fits d =
    let b : RuleBase = record { id = d.id; agents = d.agents } in
    elim (Bool-cases (str_eq d.type (str "per_transaction_limit"))) [
      | inl h ↦
          rw h (elim (Bool-cases (is_empty d.max)) [ inl e ↦ rw e tt | inr e ↦ rw e (refl, e) ])
      | inr h ↦ rw h (elim (Bool-cases (str_eq d.type (str "vendor_allowlist"))) [
        | inl h ↦
            rw h
              (elim (Bool-cases (is_empty d.vendors)) [ inl e ↦ rw e tt | inr e ↦ rw e (refl, e) ])
        | inr h ↦ rw h (elim (Bool-cases (str_eq d.type (str "vendor_blocklist"))) [
          | inl h ↦ rw h ((refl, tt))
          | inr h ↦ rw h (elim (Bool-cases (str_eq d.type (str "agent_permission"))) [
            | inl h ↦
                rw h (elim (Bool-cases (is_empty d.allowed_actions && is_empty d.allowed_targets)) [
                  | inl e ↦ rw e tt
                  | inr e ↦ rw e (refl, e)
                ])
            | inr h ↦ rw h (elim (Bool-cases (str_eq d.type (str "time_window"))) [
              | inl h ↦ rw h (build_minutes-Fits b d.start_minute d.end_minute d.weekdays)
              | inr h ↦ rw h (elim (Bool-cases (str_eq d.type (str "jurisdiction_currency"))) [
                | inl h ↦ rw h (elim (Bool-cases (is_empty d.allowed)) [
                  | inl e ↦ rw e tt
                  | inr e ↦ rw e (refl, e)
                ])
                | inr h ↦
                    rw h
                      (elim (Bool-cases (
                        str_eq d.type (str "rolling_budget")
                        || (str_eq d.type (str "sanctions_screen")
                            || str_eq d.type (str "vendor_risk")))) [
                              | inl h ↦ rw h tt
                              | inr h ↦ rw h (elim (Bool-cases (is_empty d.type)) [
                                | inl e ↦ rw e tt
                                | inr e ↦ rw e tt
                              ])
                            ])
              ])
            ])
          ])
        ])
      ])
    ]

-- What a run of the loop has accepted, under the ids seen before it.
Accepts : List Str → List PredicateDoc → Loaded (List Predicate) → Type 0
Accepts seen ds (loaded ps) =
    (map rule_id ps ≡ map (λ d. d.id) ds) × AreFresh seen (map (λ d. d.id) ds) × All IsSound ps
Accepts seen ds (failed e) = Unit

append_built-Accepts :
    (seen : List Str) (d : PredicateDoc) (ds : List PredicateDoc) (b : Built Predicate)
    (rest : Loaded (List Predicate))
    → is_empty d.id ≡ false
    → contains seen d.id ≡ false
    → Fits (record { id = d.id; agents = d.agents }) b
    → Accepts (d.id ∷ seen) ds rest
    → Accepts seen (d ∷ ds) (append_built d b rest)
unfolding append_built Accepts
append_built-Accepts seen d ds (refused e) rest h k f a = tt
append_built-Accepts seen d ds (built p) (failed e) h k f a = tt
append_built-Accepts seen d ds (built p) (loaded ps) h k f a = (
  ap (λ (b : RuleBase). b.id ∷ map rule_id ps) f.0 ∙ ap (λ xs. d.id ∷ xs) a.0,
  (h, k, a.1),
  (f.1, a.2),
)

load_docs-Accepts :
    (i : ℕ) (seen : List Str) (ds : List PredicateDoc) → Accepts seen ds (load_docs i seen ds)
unfolding load_docs Accepts
load_docs-Accepts i seen [] = (refl, tt, tt)
load_docs-Accepts i seen (d ∷ ds) = elim (Bool-cases (is_empty d.id)) [
  | inl h ↦ rw h tt
  | inr h ↦ elim (Bool-cases (contains seen d.id)) [
    | inl k ↦ rw (h, k) tt
    | inr k ↦
        rw (h, k)
          (append_built-Accepts seen d ds (build d) _ h k (build-Fits d)
            (load_docs-Accepts (suc i) (d.id ∷ seen) ds))
  ]
]

-- What a loaded policy owes to its file.
Serves : File → Option Str → Loaded Policy → Type 0
Serves f version (loaded pol) =
    (version ≡ some pol.version)
    × (map rule_id pol.predicates ≡ map (λ d. d.id) f.predicates)
    × AreFresh [] (map (λ d. d.id) f.predicates)
    × All IsSound pol.predicates
Serves f version (failed e) = Unit

with_version-Serves :
    (content_version : List PredicateDoc → Option Str) (f : File) (r : Loaded (List Predicate))
    (version : Option Str)
    → Accepts [] f.predicates r
    → Serves f version (with_version content_version r version)
unfolding with_version Accepts Serves
with_version-Serves c f (failed e) version a = tt
with_version-Serves c f (loaded ps) none a = tt
with_version-Serves c f (loaded ps) (some v) a = (refl, a.0, a.1, a.2)

-- A file that loads has distinct, nonempty ids; the policy has one rule for each, in the order
-- of the file, with the fields that its type needs (minutes below 1440, weekdays up to 6), and
-- its version is the file's, or the content hash where the file has none.
pub parse-IsSound :
    (content_version : List PredicateDoc → Option Str) (f : File) {pol : Policy}
    → parse content_version (some f) ≡ loaded pol
    → ((if is_empty f.version then content_version f.predicates else some f.version)
        ≡ some pol.version)
      × (map rule_id pol.predicates ≡ map (λ d. d.id) f.predicates)
      × AreFresh [] (map (λ d. d.id) f.predicates)
      × All IsSound pol.predicates
unfolding parse version_of Serves
parse-IsSound c f h = subst (Serves f (version_of c f)) h (
    with_version-Serves c f (load_docs 0 [] f.predicates) (version_of c f)
      (load_docs-Accepts 0 [] f.predicates))

pub Loaded-cases :
    {A : Type 0} (l : Loaded A) → ((e : LoadError) × (l ≡ failed e)) ⊎ ((a : A) × (l ≡ loaded a))
Loaded-cases (failed e) = inl (e, refl)
Loaded-cases (loaded a) = inr (a, refl)

-- Whether a file loads does not depend on its version, once it has one.
module _ (content_version : List PredicateDoc → Option Str) where
  loads_docs :
      (ds : List PredicateDoc) (p : Policy)
      → parse content_version (some (record { version = []; predicates = ds })) ≡ loaded p
      → (ps : List Predicate) × (load_docs 0 [] ds ≡ loaded ps)
  unfolding parse with_version
  loads_docs ds p e = elim (Loaded-cases (load_docs 0 [] ds)) [
    | inl (x, bad) ↦ absurd (ground arith)
    | inr (ps, good) ↦ (ps, good)
  ]

  pub parse_version :
      (ds : List PredicateDoc) (version : Str) (p : Policy)
      → parse content_version (some (record { version = []; predicates = ds })) ≡ loaded p
      → is_empty version ≡ false
      → (q : Policy) × (parse content_version (some (record { version = version; predicates = ds }))
          ≡ loaded q)
  unfolding parse with_version version_of
  parse_version ds version p e n =
      let (ps, good) = loads_docs ds p e in
      (record { version = version; predicates = ps; budgets = [] }, rw (parse, good, n) refl)

  pub parse_none :
      (version : Str)
      → is_empty version ≡ false
      → (q : Policy) × (parse content_version (some (record { version = version; predicates = [] }))
          ≡ loaded q)
  unfolding parse with_version version_of load_docs
  parse_none version n = (record { version = version; predicates = []; budgets = [] }, rw n refl)
