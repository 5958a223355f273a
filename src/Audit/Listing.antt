-- ===== src/Audit/Listing.antt =====
-- Pages of an organisation's records, and a client that follows their cursors.
use borges_labs.Base.{
  ℕ, zero, suc, ℤ, pos, ◌-◌, ◌≤◌, ◌<◌, ◌≡◌, ◌⊎◌, Bool, not, Option, none, some, List, [], ◌∷◌, ◌++◌,
  Str, length, ◌==◌, if◌then◌else◌,
}
use borges_labs.Clock.{Platform}
use borges_labs.Audit.{Record, Encryptor, Filter, Page, matches}
use borges_labs.Audit.Store.{MemStore, is_past, list}

abbrev pub filter : (Record → Bool) → List Record → List Record
filter p [] = []
filter p (r ∷ rs) = let rest = filter p rs in if p r then r ∷ rest else rest

-- The records below a cursor, and those that pass the other filters.
abbrev pub below : ℤ → List Record → List Record
below c = filter (λ r. not (is_past c r.seq))

abbrev pub matching : Platform → Filter → List Record → List Record
matching platform f = filter (λ r. matches platform r f)

-- Descending numbers between two bounds.
abbrev pub IsFalling : ℕ → ℕ → List Record → Type 0
IsFalling low high [] = Unit
IsFalling low high (r ∷ rs) = (low < r.seq) × (r.seq < high) × IsFalling low r.seq rs

-- A page of matching records, from what is left of the limit and the number of the last record.
abbrev page_of : ℕ → ℕ → List Record → Page
page_of room last [] = record { records = []; next_cursor = 0 }
page_of room last (r ∷ rs) =
    let rest = page_of (room - 1) r.seq rs in
    if room == 0
    then record { records = []; next_cursor = last }
    else record { records = r ∷ rest.records; next_cursor = rest.next_cursor }

-- What a page leaves for the next one.
abbrev Splits : Page → List Record → Type 0
Splits page rs =
    ((page.next_cursor ≡ 0) × (page.records ≡ rs))
    ⊎ ((0 < page.next_cursor) × (page.records ++ below (pos page.next_cursor) rs ≡ rs))

abbrev Fits : ℕ → List Record → Page → Type 0
Fits last rs page = (page.next_cursor ≤ last) × Splits page rs

-- The page at the start of a listing: it is the last one, or it takes at least one record.
abbrev Starts : List Record → Page → Type 0
Starts rs page =
    Splits page rs
    × ((page.next_cursor ≡ 0)
        ⊎ ((q : Record) × (qs : List Record) × (rs ≡ q ∷ qs)
            × (page.next_cursor ≤ q.seq)
            × (length (below (pos page.next_cursor) rs) < length rs)))

module _ {W : Type 0} (enc : Encryptor W) where
  abbrev append_page : List Record → Option (List Record) → Option (List Record)
  append_page rs none = none
  append_page rs (some ss) = some (rs ++ ss)

  -- A client that follows the cursors until there is none, or gives up.
  unfoldable pub pages : ℕ → Platform → Str → Filter → MemStore → Option (List Record)
  pages zero platform org f m = none
  pages (suc n) platform org f m = elim (list enc platform org f m) [
    | none ↦ none
    | some page ↦
        let rest = pages n platform org (record f { cursor = pos page.next_cursor }) m in
        if page.next_cursor == 0 then some page.records else append_page page.records rest
  ]
