-- ===== src/Repository/Disbursements/Statements.antt =====
-- internal/repository/postgres/disbursement.go: the UPDATE statements against the rules of the domain,
-- on tables whose rows keep the constraints.
use disbursment_api.Base.{
  ℕ, ◌≤◌, ◌≡◌, refl, ◌⊎◌, Bool, true, false, none, some, List, [], ◌∷◌, length, find, update_where,
  All, arith, is_some, if◌then◌else◌,
}
use disbursment_api.Base.Text.{Text}
use disbursment_api.Domain.Disbursement.{approved, rejected, Decision, is_pending}
use disbursment_api.Repository.Tables.{DbDisbursement, User}
use disbursment_api.Repository.Disbursements.{
  null_if_empty, is_enum, is_storable, fits, nullable_user_exists, lengths_fit, money_check,
  state_check, broken_constraint, user_exists, has_id, is_open, decide_row, delete_row,
}

-- The primary key.
abbrev pub HasUniqueIds : List DbDisbursement → Type 0
HasUniqueIds [] = Unit
HasUniqueIds (row ∷ rows) = (find (has_id row.id) rows ≡ none) × HasUniqueIds rows

abbrev pub KeepsConstraints : List User → List DbDisbursement → Type 0
KeepsConstraints users rows = All (λ row. broken_constraint users row ≡ none) rows

-- A decision whose note fits the column and has no U+0000, and whose actor is a user. Its status is any.
pub record IsStorable (users : List User) (decision : Decision) : Type 0 where
  pub note_fits : length decision.note ≤ 500
  pub note_storable : is_storable decision.note ≡ true
  pub actor_known : user_exists decision.actor_id users ≡ true

pub find-KeepsConstraints :
    (users : List User) (p : DbDisbursement → Bool) (rows : List DbDisbursement)
    (row : DbDisbursement)
    → KeepsConstraints users rows
    → find p rows ≡ some row
    → broken_constraint users row ≡ none
find-KeepsConstraints users p [] row k h = cc
find-KeepsConstraints users p (r ∷ rows) row k h =
    ground (arith, find-KeepsConstraints users p rows row k.1)

pub find-passes :
    (p : DbDisbursement → Bool) (rows : List DbDisbursement) (row : DbDisbursement)
    → find p rows ≡ some row
    → p row ≡ true
find-passes p [] row h = cc
find-passes p (r ∷ rows) row h = ground (arith, find-passes p rows row)

-- What the constraints of a row come to, taken apart.
record PartsHold (users : List User) (row : DbDisbursement) : Type 0 where
  enum : is_enum row.status ≡ true
  lengths : lengths_fit row ≡ true
  money : money_check row ≡ true
  state : state_check row ≡ true
  creator : user_exists row.created_by users ≡ true
  decider : nullable_user_exists row.decided_by users ≡ true

broken_constraint-PartsHold :
    (users : List User) (row : DbDisbursement)
    → broken_constraint users row ≡ none
    → PartsHold users row
unfolding broken_constraint
broken_constraint-PartsHold users row h = ground arith

PartsHold-broken_constraint :
    (users : List User) (row : DbDisbursement)
    → PartsHold users row
    → broken_constraint users row ≡ none
unfolding broken_constraint
PartsHold-broken_constraint users row h = ground arith

null_if_empty-fits : (s : Text) → length s ≤ 500 → fits 500 (null_if_empty s) ≡ true
null_if_empty-fits [] h = refl
null_if_empty-fits (c ∷ s) h = ground arith

lengths_fit-decide_row :
    (decision : Decision) (now : ℕ) (row : DbDisbursement)
    → length decision.note ≤ 500
    → lengths_fit row ≡ true
    → lengths_fit (decide_row decision now row) ≡ true
unfolding lengths_fit decide_row
lengths_fit-decide_row decision now row fit h = ground (arith, null_if_empty-fits decision.note fit)

module _ (users : List User) (now : ℕ) (row : DbDisbursement)
    (open_row : is_pending row.status ≡ true) (live : is_some row.deleted_at ≡ false)
    (h : broken_constraint users row ≡ none) where
  pub decide_row-constraints :
      (decision : Decision)
      → (decision.status ≡ approved) ⊎ (decision.status ≡ rejected)
      → IsStorable users decision
      → broken_constraint users (decide_row decision now row) ≡ none
  unfolding decide_row state_check money_check
  decide_row-constraints decision decides d =
      let parts = broken_constraint-PartsHold users row h in
      PartsHold-broken_constraint users (decide_row decision now row) (record {
        enum = ground arith;
        lengths = lengths_fit-decide_row decision now row d.note_fits parts.lengths;
        money = parts.money;
        state = ground arith;
        creator = parts.creator;
        decider = d.actor_known;
      })

  pub delete_row-constraints : broken_constraint users (delete_row now row) ≡ none
  unfolding delete_row state_check money_check lengths_fit
  delete_row-constraints =
      let parts = broken_constraint-PartsHold users row h in
      PartsHold-broken_constraint users (delete_row now row) (record {
        enum = parts.enum;
        lengths = parts.lengths;
        money = parts.money;
        state = ground (arith, parts);
        creator = parts.creator;
        decider = parts.decider;
      })

-- By the primary key, the row that is open under an id is the row with that id.
pub find-is_open :
    (id : ℕ) (rows : List DbDisbursement)
    → HasUniqueIds rows
    → find (is_open id) rows ≡ (elim (find (has_id id) rows) [
      | none ↦ none
      | some row ↦ if is_open id row then some row else none
    ])
find-is_open id [] u = refl
find-is_open id (row ∷ rows) u = ground (arith, find-is_open id rows u.1)

pub find-update_where-none :
    (p : DbDisbursement → Bool) (f : DbDisbursement → DbDisbursement) (rows : List DbDisbursement)
    → ((row : DbDisbursement) → p (f row) ≡ false)
    → find p (update_where p f rows) ≡ none
find-update_where-none p f [] shut = refl
find-update_where-none p f (row ∷ rows) shut =
    ground (arith, shut row, find-update_where-none p f rows shut)
