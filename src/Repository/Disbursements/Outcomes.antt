-- ===== src/Repository/Disbursements/Outcomes.antt =====
-- internal/repository/postgres/disbursement.go: the statements for the status and the deletion carry out
-- the transition rules of internal/domain/disbursement.go.
use disbursment_api.Base.{
  ◌∙◌, ℕ, ◌≡◌, inl, inr, true, false, ◌&&◌, not, Option, none, some, find, update_where, arith,
  Option-cases, Bool-cases, is_some, refl, ◌⊎◌, sym, ap, if◌then◌else◌,
}
use disbursment_api.Failure.{no_rows}
use disbursment_api.Domain.Disbursement.{
  DisbursementStatus, Decision, pending, approved, rejected, other_status, is_pending,
  can_transition_to, can_delete,
}
use disbursment_api.Repository.Tables.{DbDisbursement, Tables}
use disbursment_api.Repository.World.{Sql, returned, failed}
use disbursment_api.Repository.Disbursements.{
  is_enum, decodes, state_check, broken_constraint, has_id, is_open, decide_row, delete_row,
  update_open, update_status_statement, soft_delete_statement,
}
use disbursment_api.Repository.Disbursements.Statements.{
  HasUniqueIds, KeepsConstraints, IsStorable, find-KeepsConstraints, find-passes, find-is_open,
  decide_row-constraints, delete_row-constraints,
}

-- The constraints that the database keeps on the table of disbursements.
pub record IsSound (t : Tables) : Type 0 where
  pub unique : HasUniqueIds t.disbursements
  pub constraints : KeepsConstraints t.users t.disbursements

-- A row that is changed where it is open.
abbrev changed :
    ℕ → (DbDisbursement → DbDisbursement) → DbDisbursement → Tables → Sql DbDisbursement × Tables
changed id change row t = (
  returned (change row),
  record t { disbursements = update_where (is_open id) change t.disbursements },
)

-- The row that a statement returns, if it does not fail.
unfoldable pub row_of : Sql DbDisbursement × Tables → Option DbDisbursement
row_of (returned row, t) = some row
row_of (failed cause, t) = none

-- What the domain's rules say of a decision on the row with an id.
unfoldable pub decide_by_rules :
    ℕ → Decision → ℕ → Option DbDisbursement → Tables → Sql DbDisbursement × Tables
decide_by_rules id decision now none t = (failed no_rows, t)
decide_by_rules id decision now (some row) t =
    if can_transition_to row.status decision.status && not (is_some row.deleted_at)
    then changed id (decide_row decision now) row t
    else (failed no_rows, t)

-- And of a deletion.
unfoldable pub delete_by_rules :
    ℕ → ℕ → Option DbDisbursement → Tables → Sql DbDisbursement × Tables
delete_by_rules id now none t = (failed no_rows, t)
delete_by_rules id now (some row) t =
    if can_delete row.status row.deleted_at
    then changed id (delete_row now) row t
    else (failed no_rows, t)

decides-cases :
    (status : DisbursementStatus)
    → ((status ≡ approved) ⊎ (status ≡ rejected))
      ⊎ (((is_pending status ≡ true) ⊎ (is_enum status ≡ false))
          × ((before : DisbursementStatus) → can_transition_to before status ≡ false))
unfolding can_transition_to
decides-cases approved = inl (inl refl)
decides-cases rejected = inl (inr refl)
decides-cases pending = inr (inl refl, λ before. ground arith)
decides-cases (other_status s) = inr (inr refl, λ before. ground arith)

module _ (id : ℕ) (now : ℕ) (t : Tables) (sound : IsSound t) where
  open_found :
      (change : DbDisbursement → DbDisbursement)
      → ((row : DbDisbursement)
          → is_pending row.status ≡ true
          → is_some row.deleted_at ≡ false
          → broken_constraint t.users row ≡ none
          → broken_constraint t.users (change row) ≡ none)
      → (row : DbDisbursement) → find (is_open id) t.disbursements ≡ some row
      → update_open id change t ≡ changed id change row t
  unfolding update_open
  open_found change keeps row found =
      let passes = find-passes (is_open id) t.disbursements row found in
      let kept =
        find-KeepsConstraints t.users (is_open id) t.disbursements row sound.constraints found in
      rw found (rw (keeps row (ground arith) (ground arith) kept))

  open_missing :
      (change : DbDisbursement → DbDisbursement)
      → find (is_open id) t.disbursements ≡ none
      → update_open id change t ≡ (failed no_rows, t)
  unfolding update_open
  open_missing change missing = rw missing

  module _ (change : DbDisbursement → DbDisbursement)
      (keeps : (row : DbDisbursement)
        → is_pending row.status ≡ true
        → is_some row.deleted_at ≡ false
        → broken_constraint t.users row ≡ none
        → broken_constraint t.users (change row) ≡ none) where
    update_open-missing_id :
        find (has_id id) t.disbursements ≡ none → update_open id change t ≡ (failed no_rows, t)
    update_open-missing_id missing =
        open_missing change (find-is_open id t.disbursements sound.unique ∙ (rw missing))

    update_open-by_row :
        (row : DbDisbursement)
        → find (has_id id) t.disbursements ≡ some row
        → update_open id change t ≡ (
            if is_pending row.status && not (is_some row.deleted_at)
            then changed id change row t
            else (failed no_rows, t))
    update_open-by_row row found =
        let at_row : find (is_open id) t.disbursements
            ≡ (if is_open id row then some row else none) =
          find-is_open id t.disbursements sound.unique ∙ (rw found) in
        let same = find-passes (has_id id) t.disbursements row found in
        elim (Bool-cases (is_pending row.status && not (is_some row.deleted_at))) [
          | inl yes_open ↦
              rw yes_open (open_found change keeps row (at_row ∙ (rw (same, yes_open))))
          | inr not_open ↦ rw not_open (open_missing change (at_row ∙ (rw (same, not_open))))
        ]

  update_status_statement-deciding :
      (decision : Decision)
      → (decision.status ≡ approved) ⊎ (decision.status ≡ rejected)
      → IsStorable t.users decision
      → update_status_statement id decision now t
        ≡ decide_by_rules id decision now (find (has_id id) t.disbursements) t
  unfolding update_status_statement decide_by_rules can_transition_to
  update_status_statement-deciding decision decides d =
      let keeps =
        λ (row : DbDisbursement) (p : is_pending row.status ≡ true)
            (l : is_some row.deleted_at ≡ false) (h : broken_constraint t.users row ≡ none).
          decide_row-constraints t.users now row p l h decision decides d in
      elim (Option-cases (find (has_id id) t.disbursements)) [
        | inl missing ↦
            rw missing
              (ground (arith, update_open-missing_id (decide_row decision now) keeps missing))
        | inr (row, found) ↦
            rw found (ground (arith, update_open-by_row (decide_row decision now) keeps row found))
      ]

  -- An answer without a row that leaves the tables.
  Refused : Sql DbDisbursement × Tables → Type 0
  Refused answer = (row_of answer ≡ none) × (answer.1 ≡ t)

  update_open-Refused :
      (change : DbDisbursement → DbDisbursement)
      → ((row : DbDisbursement) → is_some (broken_constraint t.users (change row)) ≡ true)
      → Refused (update_open id change t)
  unfolding update_open row_of Refused
  update_open-Refused change breaks = elim (Option-cases (find (is_open id) t.disbursements)) [
    | inl missing ↦ rw missing (refl, refl)
    | inr (row, found) ↦ elim (Option-cases (broken_constraint t.users (change row))) [
      | inl kept ↦ absurd (cc (breaks row, kept))
      | inr (cause, broken) ↦ rw (found, broken) (refl, refl)
    ]
  ]

  decide_by_rules-Refused :
      (decision : Decision)
      → ((row : DbDisbursement) → can_transition_to row.status decision.status ≡ false)
      → (o : Option DbDisbursement) → Refused (decide_by_rules id decision now o t)
  unfolding decide_by_rules row_of Refused
  decide_by_rules-Refused decision never none = (refl, refl)
  decide_by_rules-Refused decision never (some row) = rw (never row) (refl, refl)

  update_status_statement-Refused :
      (decision : Decision)
      → (is_pending decision.status ≡ true) ⊎ (is_enum decision.status ≡ false)
      → Refused (update_status_statement id decision now t)
  unfolding update_status_statement row_of Refused decide_row broken_constraint state_check
  update_status_statement-Refused decision (inr unknown) =
      let refused : decodes decision ≡ false = ground (arith, unknown) in rw refused (refl, refl)
  update_status_statement-Refused decision (inl waits) = elim (Bool-cases (decodes decision)) [
    | inr unknown ↦ rw unknown (refl, refl)
    | inl known ↦ rw known (update_open-Refused (decide_row decision now) (λ row. ground arith))
  ]

  -- On a sound table, for a decision with any status, whose note has at most 500 characters and no
  -- U+0000 and whose actor is a user, the UPDATE of the status returns and stores a row exactly where `CanTransitionTo` allows the
  -- status on a row that is not deleted, the row that is decided; otherwise it returns none and changes
  -- nothing.
  pub update_status_statement-decide_by_rules :
      (decision : Decision)
      → IsStorable t.users decision
      → let answer = update_status_statement id decision now t in
        let by_rules = decide_by_rules id decision now (find (has_id id) t.disbursements) t in
        (row_of answer ≡ row_of by_rules) × (answer.1 ≡ by_rules.1)
  unfolding Refused
  update_status_statement-decide_by_rules decision d = elim (decides-cases decision.status) [
    | inl decides ↦
        let same = update_status_statement-deciding decision decides d in
        (ap row_of same, ap (λ answer. answer.1) same)
    | inr (rest, never) ↦
        let by_code = update_status_statement-Refused decision rest in
        let by_rules =
          decide_by_rules-Refused decision (λ row. never row.status)
            (find (has_id id) t.disbursements) in
        (by_code.0 ∙ sym by_rules.0, by_code.1 ∙ sym by_rules.1)
  ]

  -- On a sound table the UPDATE of a deletion does what `CanDelete` allows, and nothing else.
  pub soft_delete_statement-delete_by_rules :
      soft_delete_statement id now t ≡ delete_by_rules id now (find (has_id id) t.disbursements) t
  unfolding soft_delete_statement delete_by_rules can_delete
  soft_delete_statement-delete_by_rules = elim (Option-cases (find (has_id id) t.disbursements)) [
    | inl missing ↦
        rw missing
          (update_open-missing_id (delete_row now) (delete_row-constraints t.users now) missing)
    | inr (row, found) ↦ rw found (
        ground (
          arith,
          update_open-by_row (delete_row now) (delete_row-constraints t.users now) row found,
        ))
  ]
