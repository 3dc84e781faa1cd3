-- ===== src/Repository/Outbox/Waiting.antt =====
-- internal/repository/postgres/outbox.go: rows of the outbox that wait for the end of a lease.
use disbursment_api.Base.{
  ℕ, suc, ◌<◌, ◌≡◌, refl, inl, inr, Bool, true, false, List, [], ◌∷◌, map, take, keep, update_where,
  All, arith, Bool-cases, ◌==◌, zero, not, ◌||◌, leb,
}
use disbursment_api.Repository.Tables.{OutboxRow}
use disbursment_api.Repository.Outbox.{
  available, goes_first, place, order, chosen_ids, is_in, chosen, is_event, is_pending_event,
}

-- Not a row with the event id.
abbrev pub Avoids : ℕ → OutboxRow → Type 0
Avoids id row = (row.event.event_id == id) ≡ false

place-All :
    (id : ℕ) (row : OutboxRow) (rows : List OutboxRow)
    → Avoids id row
    → All (Avoids id) rows
    → All (Avoids id) (place row rows)
unfolding place
place-All id row [] h hs = (h, tt)
place-All id row (r ∷ rows) h hs = elim (Bool-cases (goes_first row r)) [
  | inl first ↦ rw first (h, hs)
  | inr later ↦ rw later (hs.0, place-All id row rows h hs.1)
]

order-All : (id : ℕ) (rows : List OutboxRow) → All (Avoids id) rows → All (Avoids id) (order rows)
unfolding order
order-All id [] hs = tt
order-All id (row ∷ rows) hs = place-All id row (order rows) hs.0 (order-All id rows hs.1)

take-not_in :
    (id n : ℕ) (rows : List OutboxRow)
    → All (Avoids id) rows
    → is_in id (map (λ row. row.event.event_id) (take n rows)) ≡ false
unfolding is_in
take-not_in id zero rows hs = refl
take-not_in id (suc n) [] hs = refl
take-not_in id (suc n) (row ∷ rows) hs = ground (arith, hs.0, take-not_in id n rows hs.1)

pub in-Avoids :
    (id : ℕ) (row : OutboxRow) (ids : List ℕ)
    → is_in id ids ≡ false
    → is_in row.event.event_id ids ≡ true
    → Avoids id row
in-Avoids id row ids out h = elim (Bool-cases (row.event.event_id == id)) [
  | inl same ↦ let e : row.event.event_id ≡ id = ground (arith, same) in absurd (cc (e, out, h))
  | inr apart ↦ apart
]

not_in-Avoids :
    (id : ℕ) (row : OutboxRow) (ids : List ℕ)
    → is_in id ids ≡ true
    → is_in row.event.event_id ids ≡ false
    → Avoids id row
not_in-Avoids id row ids h out = elim (Bool-cases (row.event.event_id == id)) [
  | inl same ↦ let e : row.event.event_id ≡ id = ground (arith, same) in ground (arith, e)
  | inr apart ↦ apart
]

-- A row with the id is delivered, or waits for the end of the lease.
abbrev pub Waits : ℕ → ℕ → OutboxRow → Type 0
Waits id lease_until row =
    (not (is_event id row) || (row.delivered || leb lease_until row.available_at)) ≡ true

pub Avoids-Waits : (id lease_until : ℕ) (row : OutboxRow) → Avoids id row → Waits id lease_until row
Avoids-Waits id lease_until row other = rw other refl

-- A row that waits is not available before the lease ends.
available-Avoids :
    (id lease_until now : ℕ) (locked : ℕ → Bool) (rows : List OutboxRow)
    → now < lease_until
    → All (Waits id lease_until) rows
    → All (Avoids id) (keep (available locked now) rows)
unfolding available
available-Avoids id lease_until now locked [] early waits = tt
available-Avoids id lease_until now locked (row ∷ rows) early waits =
    let rest = available-Avoids id lease_until now locked rows early waits.1 in
    elim (Bool-cases (available locked now row)) [
      | inr held ↦ rw held rest
      | inl ready ↦ rw ready (ground (arith, ready, waits.0), rest)
    ]

pub chosen_ids-not_in :
    (id lease_until now limit : ℕ) (locked : ℕ → Bool) (rows : List OutboxRow)
    → now < lease_until
    → All (Waits id lease_until) rows
    → is_in id (chosen_ids locked now limit rows) ≡ false
chosen_ids-not_in id lease_until now limit locked rows early waits =
    take-not_in id limit _
      (order-All id _ (available-Avoids id lease_until now locked rows early waits))

pub fetched-Waits :
    (id : ℕ) (ids : List ℕ) (lease_until : ℕ) (rows : List OutboxRow)
    → is_in id ids ≡ true
    → All
        (Waits id lease_until)
        (update_where (chosen ids) (λ row. record row { available_at = lease_until }) rows)
fetched-Waits id ids lease_until [] h = tt
fetched-Waits id ids lease_until (row ∷ rows) h =
    let rest = fetched-Waits id ids lease_until rows h in
    elim (Bool-cases (is_in row.event.event_id ids)) [
      | inl leased ↦ (rw leased (ground arith), rest)
      | inr free ↦
          (rw free (Avoids-Waits id lease_until row (not_in-Avoids id row ids h free)), rest)
    ]

pub pending-Avoids :
    (id event_id : ℕ) (row : OutboxRow)
    → (event_id == id) ≡ false
    → is_pending_event event_id row ≡ true
    → Avoids id row
pending-Avoids id event_id row other own =
    let e : row.event.event_id ≡ event_id = ground (arith, own) in rw e other
