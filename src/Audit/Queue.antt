-- ===== src/Audit/Queue.antt =====
-- The background writer of the audit log (services/authorize-svc/internal/audit/writer.go), over
-- any store: a bounded channel, one worker, and what is accepted after `Close`. A failed append is
-- logged, so that an append is a step of the store; its clock belongs to the store. The wait for
-- the worker that ends `Close` is left out, and its log.
use borges_labs.Base.{
  ℕ, ◌+◌, ◌≡◌, refl, sym, ap, ◌∙◌, ◌⊎◌, inl, inr, Bool, true, false, Option, none, some, List, [],
  ◌∷◌, ◌++◌, arith, length, ltb, if◌then◌else◌, Bool-cases, ℤ, pos, negsuc,
}
use borges_labs.Audit.{Record}

-- `NewWriter`: the depth of the channel.
unfoldable pub queue_size : ℤ → ℕ
queue_size (pos n) = if ltb 0 n then n else 1024
queue_size (negsuc n) = 1024

pub record Writer (S : Type 0) : Type 0 where
  pub queue : List Record
  pub closed : Bool
  pub store : S

pub data Event : Type 0 where
  enqueued : Record → Event
  worked closed_down : Event

abbrev pub NeverCloses : List Event → Type 0
NeverCloses [] = Unit
NeverCloses (enqueued r ∷ es) = NeverCloses es
NeverCloses (worked ∷ es) = NeverCloses es
NeverCloses (closed_down ∷ es) = ⊥

List-cases : (rs : List Record) → (rs ≡ []) ⊎ ((q : Record) × (qs : List Record) × (rs ≡ q ∷ qs))
List-cases [] = inl refl
List-cases (q ∷ qs) = inr (q, qs, refl)

append_nil : (rs : List Record) → rs ++ [] ≡ rs
append_nil [] = refl
append_nil (r ∷ rs) = ap (λ qs. r ∷ qs) (append_nil rs)

snoc_append : (r : Record) (rs qs : List Record) → (rs ++ r ∷ []) ++ qs ≡ rs ++ r ∷ qs
snoc_append r [] qs = refl
snoc_append r (s ∷ rs) qs = ap (λ ss. s ∷ ss) (snoc_append r rs qs)

module _ {S : Type 0} (append_record : Record → S → S) where
  -- Appends at once, in order.
  unfoldable pub append_all : List Record → S → S
  append_all [] s = s
  append_all (r ∷ rs) s = append_all rs (append_record r s)

  append_all-append :
      (rs qs : List Record) (s : S) → append_all (rs ++ qs) s ≡ append_all qs (append_all rs s)
  unfolding append_all
  append_all-append [] qs s = refl
  append_all-append (r ∷ rs) qs s = append_all-append rs qs (append_record r s)

module _ {S : Type 0} (append_record : Record → S → S) (capacity : ℕ) where
  -- `persist`
  unfoldable pub persist : Record → Writer S → Writer S
  persist r w = record w { store = append_record r w.store }

  -- `Enqueue`; `none` while the call blocks.
  unfoldable pub enqueue : Record → Writer S → Option (Writer S)
  enqueue r w =
      if w.closed
      then some (persist r w)
      else if ltb (length w.queue) capacity
      then some (record w { queue = w.queue ++ r ∷ [] })
      else none

  -- A turn of the worker's loop; `none` while it waits for a record.
  abbrev pub take_turn : List Record → Writer S → Option (Writer S)
  take_turn [] w = none
  take_turn (r ∷ rs) w = some (persist r (record w { queue = rs }))

  unfoldable pub work : Writer S → Option (Writer S)
  work w = take_turn w.queue w

  -- `Close`, up to the wait.
  unfoldable pub close : Writer S → Writer S
  close w = record w { closed = true }

  abbrev pub or_same : Writer S → Option (Writer S) → Writer S
  or_same w none = w
  or_same w (some v) = v

  -- An event that cannot happen yet changes nothing.
  unfoldable pub step : Event → Writer S → Writer S
  step (enqueued r) w = or_same w (enqueue r w)
  step worked w = or_same w (work w)
  step closed_down w = close w

  unfoldable pub run : List Event → Writer S → Writer S
  run [] w = w
  run (e ∷ es) w = run es (step e w)

  -- `Flush`: the worker goes on until the queue is empty.
  unfoldable pub drain : List Record → Writer S → Writer S
  drain [] w = w
  drain (r ∷ rs) w = drain rs (or_same w (work w))

  unfoldable pub flush : Writer S → Writer S
  flush w = drain w.queue w

  -- The records whose `Enqueue` returns.
  unfoldable pub accepted : List Event → Writer S → List Record
  accepted [] w = []
  accepted (enqueued r ∷ es) w =
      let rest = accepted es (step (enqueued r) w) in
      if w.closed then r ∷ rest else if ltb (length w.queue) capacity then r ∷ rest else rest
  accepted (worked ∷ es) w = accepted es (step worked w)
  accepted (closed_down ∷ es) w = accepted es (step closed_down w)

  drain_lem :
      (rs : List Record) (w : Writer S)
      → w.queue ≡ rs
      → ((drain rs w).store ≡ append_all append_record rs w.store) × ((drain rs w).queue ≡ [])
  unfolding drain append_all work persist
  drain_lem [] w e = (refl, e)
  drain_lem (r ∷ rs) w e = rw e (drain_lem rs (persist r (record w { queue = rs })) refl)

  -- `Flush` appends what is queued, in order, and leaves the queue empty.
  flush_lem :
      (w : Writer S)
      → ((flush w).store ≡ append_all append_record w.queue w.store) × ((flush w).queue ≡ [])
  unfolding flush
  flush_lem w = drain_lem w.queue w refl

  step-order :
      (e : Event) (es : List Event) (w : Writer S)
      → w.closed ≡ false
      → NeverCloses (e ∷ es)
      → let v = step e w in
        (v.closed ≡ false)
        × NeverCloses es
        × (append_all append_record (v.queue ++ accepted es v) v.store
            ≡ append_all append_record (w.queue ++ accepted (e ∷ es) w) w.store)
  unfolding step accepted enqueue work append_all persist
  step-order (enqueued r) es w open_now n = elim (Bool-cases (ltb (length w.queue) capacity)) [
    | inl room ↦
        rw (open_now, room)
          (refl, n, ap (λ rs. append_all append_record rs w.store) (snoc_append r w.queue _))
    | inr full ↦ rw (open_now, full) (refl, n, refl)
  ]
  step-order worked es w open_now n = elim (List-cases w.queue) [
    | inl none_waits ↦ rw none_waits (open_now, n, refl)
    | inr (r, rs, waits) ↦ rw waits (open_now, n, refl)
  ]
  step-order closed_down es w open_now n = elim n [ ]

  run-order :
      (es : List Event) (w : Writer S)
      → w.closed ≡ false
      → NeverCloses es
      → append_all append_record (run es w).queue (run es w).store
        ≡ append_all append_record (w.queue ++ accepted es w) w.store
  unfolding run accepted
  run-order [] w open_now n =
      ap (λ rs. append_all append_record rs w.store) (sym (append_nil w.queue))
  run-order (e ∷ es) w open_now n =
      let (still, rest, same) = step-order e es w open_now n in
      run-order es (step e w) still rest ∙ same

  -- While the writer is open, and however its worker and the handlers take turns, a flush leaves
  -- the store as if each record whose `Enqueue` returned had been appended at once, in order.
  pub run-flush :
      (es : List Event) (s : S)
      → NeverCloses es
      → let start : Writer S = record { queue = []; closed = false; store = s } in
        ((flush (run es start)).store ≡ append_all append_record (accepted es start) s)
        × ((flush (run es start)).queue ≡ [])
  run-flush es s n =
      let start : Writer S = record { queue = []; closed = false; store = s } in
      let (all, none_left) = flush_lem (run es start) in
      (all ∙ run-order es start refl n, none_left)

-- How many of the records pass a test.
abbrev pub count : (Record → Bool) → List Record → ℕ
count p [] = 0
count p (r ∷ rs) = (if p r then 1 else 0) + count p rs

count-append :
    (p : Record → Bool) (rs qs : List Record) → count p (rs ++ qs) ≡ count p rs + count p qs
count-append p [] qs = omega arith
count-append p (r ∷ rs) qs = omega (arith, count-append p rs qs)

-- A store that only notes what is appended.
abbrev pub note : Record → List Record → List Record
note r rs = rs ++ r ∷ []

noted :
    (p : Record → Bool) (rs qs : List Record)
    → count p (append_all note rs qs) ≡ count p qs + count p rs
unfolding append_all
noted p [] qs = omega arith
noted p (r ∷ rs) qs = omega (arith, noted p rs (qs ++ r ∷ []), count-append p qs (r ∷ []))

module _ (capacity : ℕ) where
  held : (Record → Bool) → Writer (List Record) → ℕ
  held p w = count p w.store + count p w.queue

  step-held :
      (p : Record → Bool) (e : Event) (es : List Event) (w : Writer (List Record))
      → held p (step note capacity e w)
          + count p (accepted note capacity es (step note capacity e w))
        ≡ held p w + count p (accepted note capacity (e ∷ es) w)
  unfolding step accepted enqueue work persist close held
  step-held p (enqueued r) es w =
      ground (arith, count-append p w.store (r ∷ []), count-append p w.queue (r ∷ []))
  step-held p worked es w = elim (List-cases w.queue) [
    | inl none_waits ↦ rw none_waits (ground arith)
    | inr (r, rs, waits) ↦ rw waits (ground (arith, count-append p w.store (r ∷ [])))
  ]
  step-held p closed_down es w = ground arith

  run-held :
      (p : Record → Bool) (es : List Event) (w : Writer (List Record))
      → held p (run note capacity es w) ≡ held p w + count p (accepted note capacity es w)
  unfolding run accepted
  run-held p [] w = omega arith
  run-held p (e ∷ es) w = omega (arith, run-held p es (step note capacity e w), step-held p e es w)

  -- Also when the writer is closed on the way, no record is lost or appended twice: after a flush,
  -- the store has been given each record as often as its `Enqueue` returned.
  pub flush-count :
      (p : Record → Bool) (es : List Event)
      → let start : Writer (List Record) = record { queue = []; closed = false; store = [] } in
        count p (flush note capacity (run note capacity es start)).store
        ≡ count p (accepted note capacity es start)
  unfolding held
  flush-count p es =
      let start : Writer (List Record) = record { queue = []; closed = false; store = [] } in
      let w = run note capacity es start in
      omega (
        arith,
        run-held p es start,
        ap (count p) (flush_lem note capacity w).0,
        noted p w.queue w.store,
      )
