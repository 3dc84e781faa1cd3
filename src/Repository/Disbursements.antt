-- ===== src/Repository/Disbursements.antt =====
-- internal/repository/postgres/disbursement.go: the store of disbursements, with its SQL statements and
-- the constraints of the table. `now` is what the store's clock reads.
pub mod Rows
pub mod Statements
pub mod Outcomes
pub mod Winner
pub mod Listing
use disbursment_api.Base.{
  ℕ, ◌+◌, ◌-◌, ◌*◌, Bool, true, false, not, ◌&&◌, ◌||◌, Option, none, some, List, [], ◌∷◌, ◌++◌,
  length, all, find, update_where, ltb, leb, ◌==◌, if◌then◌else◌, is_some,
}
use disbursment_api.Base.Int.{pos, ltb_ℤ, leb_ℤ, pos_part}
use disbursment_api.Base.Text.{Text, is_empty}
use disbursment_api.Failure.{
  Cause, no_rows, postgres, plain, Failure, repository, raw, not_found, conflict, constraint,
  canceled, deadline_exceeded,
}
use disbursment_api.Domain.Disbursement.{
  DisbursementStatus, pending, other_status, is_pending, Disbursement, Decision, is_digit,
  is_bank_code_rune, minimum_amount, maximum_amount, fee_threshold, lower_tier_admin_fee,
  upper_tier_admin_fee, maximum_recipient_runes, maximum_note_runes,
}
use disbursment_api.Repository.Errors.{classify}
use disbursment_api.Repository.Tables.{DbDisbursement, User, Tables}
use disbursment_api.Repository.World.{
  Sql, returned, failed, Statement, Action, pure, raise, exec_tx, inspect_tx, inspect_pool,
}

-- `""` and uuid.Nil are stored as NULL.
abbrev pub null_if_empty : Text → Option Text
null_if_empty [] = none
null_if_empty (c ∷ s) = some (c ∷ s)

abbrev pub null_if_nil : ℕ → Option ℕ
null_if_nil id = if id == 0 then none else some id

abbrev pub empty_if_null : Option Text → Text
empty_if_null none = []
empty_if_null (some s) = s

abbrev pub nil_if_null : Option ℕ → ℕ
nil_if_null none = 0
nil_if_null (some id) = id

-- The parameters of `insertDisbursementQuery`.
unfoldable pub to_row : Disbursement → DbDisbursement
to_row d = record {
  id = d.id;
  recipient_name = d.recipient_name;
  account_number = d.account_number;
  bank_code = d.bank_code;
  amount = d.amount;
  admin_fee = d.admin_fee;
  status = d.status;
  note = null_if_empty d.note;
  created_by = d.created_by;
  decided_by = null_if_nil d.decided_by;
  decision_note = null_if_empty d.decision_note;
  decided_at = d.decided_at;
  deleted_at = d.deleted_at;
  created_at = d.created_at;
  updated_at = d.updated_at;
}

-- `mapDBDisbursementToDomain`.
unfoldable pub from_row : DbDisbursement → Disbursement
from_row row = record {
  id = row.id;
  recipient_name = row.recipient_name;
  account_number = row.account_number;
  bank_code = row.bank_code;
  amount = row.amount;
  admin_fee = row.admin_fee;
  status = row.status;
  note = empty_if_null row.note;
  created_by = row.created_by;
  decided_by = nil_if_null row.decided_by;
  decision_note = empty_if_null row.decision_note;
  decided_at = row.decided_at;
  deleted_at = row.deleted_at;
  created_at = row.created_at;
  updated_at = row.updated_at;
}

-- Whether the status is a value of the enum type of the column.
abbrev pub is_enum : DisbursementStatus → Bool
is_enum (other_status s) = false
is_enum _ = true

abbrev pub fits : ℕ → Option Text → Bool
fits n none = true
fits n (some s) = leb (length s) n

-- The lengths of the VARCHAR columns.
unfoldable pub lengths_fit : DbDisbursement → Bool
lengths_fit row =
    leb (length row.recipient_name) 150
    && (leb (length row.account_number) 34
        && (leb (length row.bank_code) 10 && (fits 500 row.note && fits 500 row.decision_note)))

-- The CHECK constraints on the account, the bank, the amount and its fee.
unfoldable pub money_check : DbDisbursement → Bool
money_check row =
    (leb 6 (length row.account_number)
      && (leb (length row.account_number) 34 && all is_digit row.account_number))
    && ((leb 3 (length row.bank_code)
          && (leb (length row.bank_code) 10 && all is_bank_code_rune row.bank_code))
        && ((leb_ℤ minimum_amount row.amount && leb_ℤ row.amount maximum_amount)
            && (if ltb_ℤ row.amount fee_threshold
                then leb_ℤ row.admin_fee lower_tier_admin_fee
                  && leb_ℤ lower_tier_admin_fee row.admin_fee
                else leb_ℤ row.admin_fee upper_tier_admin_fee
                  && leb_ℤ upper_tier_admin_fee row.admin_fee)))

-- The CHECK constraints on the decision and the deletion.
unfoldable pub state_check : DbDisbursement → Bool
state_check row =
    (if is_pending row.status
      then not (is_some row.decided_by) && not (is_some row.decided_at)
      else is_some row.decided_by && is_some row.decided_at)
    && (not (is_some row.deleted_at) || is_pending row.status)

abbrev pub user_exists : ℕ → List User → Bool
user_exists id users = is_some (find (λ u. u.id == id) users)

abbrev pub nullable_user_exists : Option ℕ → List User → Bool
nullable_user_exists none users = true
nullable_user_exists (some id) users = user_exists id users

-- The first constraint of the table that a row breaks; the primary key is tested by the insertion.
unfoldable pub broken_constraint : List User → DbDisbursement → Option Cause
broken_constraint users row =
    if not (is_enum row.status)
    then some (postgres "22P02")
    else if not (lengths_fit row)
    then some (postgres "22001")
    else if not (money_check row && state_check row)
    then some (postgres "23514")
    else if not (user_exists row.created_by users && nullable_user_exists row.decided_by users)
    then some (postgres "23503")
    else none

abbrev pub has_id : ℕ → DbDisbursement → Bool
has_id id row = row.id == id

-- A text column refuses U+0000, before any constraint is looked at.
abbrev pub is_storable : Text → Bool
is_storable s = all (λ c. not (c == 0)) s

abbrev nullable_is_storable : Option Text → Bool
nullable_is_storable none = true
nullable_is_storable (some s) = is_storable s

unfoldable pub texts_storable : DbDisbursement → Bool
texts_storable row =
    is_storable row.recipient_name
    && (is_storable row.account_number
        && (is_storable row.bank_code
            && (nullable_is_storable row.note && nullable_is_storable row.decision_note)))

abbrev pub insert_error : List User → DbDisbursement → Option Cause
insert_error users row =
    if texts_storable row then broken_constraint users row else some (postgres "22021")

abbrev insert_checked : DbDisbursement → Option Cause → Statement (Unit {0})
insert_checked row (some cause) t = (failed cause, t)
insert_checked row none t =
    if is_some (find (has_id row.id) t.disbursements)
    then (failed (postgres "23505"), t)
    else (returned tt, record t { disbursements = t.disbursements ++ row ∷ [] })

-- `insertDisbursementQuery`.
unfoldable pub insert_statement : DbDisbursement → Statement (Unit {0})
insert_statement row t = insert_checked row (insert_error t.users row) t

abbrev pub one_row : {A : Type 0} → Option A → Statement A
one_row none t = (failed no_rows, t)
one_row (some row) t = (returned row, t)

-- `findDisbursementByIDQuery` and `findDisbursementRawByIDQuery`.
unfoldable pub find_statement : ℕ → Statement DbDisbursement
find_statement id t =
    one_row (find (λ row. row.id == id && not (is_some row.deleted_at)) t.disbursements) t

unfoldable pub find_raw_statement : ℕ → Statement DbDisbursement
find_raw_statement id t = one_row (find (has_id id) t.disbursements) t

-- `WHERE id = … AND status = 'PENDING' AND deleted_at IS NULL`.
abbrev pub is_open : ℕ → DbDisbursement → Bool
is_open id row = row.id == id && (is_pending row.status && not (is_some row.deleted_at))

-- An UPDATE of the rows that `is_open` selects, RETURNING the one that it finds.
abbrev update_checked :
    ℕ → (DbDisbursement → DbDisbursement) → DbDisbursement → Option Cause → Statement DbDisbursement
update_checked id change row (some cause) t = (failed cause, t)
update_checked id change row none t = (
  returned (change row),
  record t { disbursements = update_where (is_open id) change t.disbursements },
)

abbrev update_found :
    ℕ → (DbDisbursement → DbDisbursement) → Option DbDisbursement → Statement DbDisbursement
update_found id change none t = (failed no_rows, t)
update_found id change (some row) t =
    update_checked id change row (broken_constraint t.users (change row)) t

unfoldable pub update_open : ℕ → (DbDisbursement → DbDisbursement) → Statement DbDisbursement
update_open id change t = update_found id change (find (is_open id) t.disbursements) t

-- The SET clauses of `updateDisbursementStatusQuery` and `softDeleteDisbursementQuery`.
unfoldable pub decide_row : Decision → ℕ → DbDisbursement → DbDisbursement
decide_row decision now row = record row {
  status = decision.status;
  decided_by = some decision.actor_id;
  decision_note = null_if_empty decision.note;
  decided_at = some now;
  updated_at = now;
}

unfoldable pub delete_row : ℕ → DbDisbursement → DbDisbursement
delete_row now row = record row { deleted_at = some now; updated_at = now }

-- A status that the enum does not have, or a note that no text column takes, is refused before any row is
-- looked at.
abbrev pub decodes : Decision → Bool
decodes decision = is_enum decision.status && is_storable decision.note

abbrev decoding_error : Decision → Cause
decoding_error decision = if is_enum decision.status then postgres "22021" else postgres "22P02"

unfoldable pub update_status_statement : ℕ → Decision → ℕ → Statement DbDisbursement
unfolding update_open decide_row
update_status_statement id decision now t =
    if decodes decision
    then update_open id (decide_row decision now) t
    else (failed (decoding_error decision), t)

unfoldable pub soft_delete_statement : ℕ → ℕ → Statement DbDisbursement
unfolding update_open delete_row
soft_delete_statement id now t = update_open id (delete_row now) t

unfoldable pub insert : Disbursement → Action (Unit {0})
insert d = exec_tx (insert_statement (to_row d))

abbrev pub found_or_error : Sql DbDisbursement → Action Disbursement
found_or_error (returned row) = pure (from_row row)
found_or_error (failed no_rows) = raise (repository not_found (plain "disbursement not found"))
found_or_error (failed cause) = raise (classify (raw cause))

unfoldable pub find_by_id : ℕ → Action Disbursement
find_by_id id = inspect_pool (find_statement id) found_or_error

-- Why an update has found no open row.
unfoldable pub update_refusal : DbDisbursement → Failure
update_refusal existing =
    if is_some existing.deleted_at
    then repository not_found (plain "disbursement deleted")
    else if not (is_pending existing.status)
    then repository conflict (plain "disbursement already finalized")
    else repository conflict (plain "concurrent status update conflict")

abbrev pub refuse_update : Sql DbDisbursement → Action Disbursement
refuse_update (returned existing) = raise (update_refusal existing)
refuse_update (failed no_rows) = raise (repository not_found (plain "disbursement not found"))
refuse_update (failed cause) = raise (classify (raw cause))

abbrev pub updated_or_refusal : ℕ → Sql DbDisbursement → Action Disbursement
updated_or_refusal id (returned row) = pure (from_row row)
updated_or_refusal id (failed no_rows) = inspect_tx (find_raw_statement id) refuse_update
updated_or_refusal id (failed cause) = raise (classify (raw cause))

unfoldable pub update_status : ℕ → Decision → ℕ → Action Disbursement
update_status id decision now =
    inspect_tx (update_status_statement id decision now) (updated_or_refusal id)

-- A row that is deleted already is the answer to a repeated deletion.
unfoldable pub delete_repeat : DbDisbursement → Action (Disbursement × Bool)
delete_repeat existing =
    if is_some existing.deleted_at
    then pure (from_row existing, true)
    else if not (is_pending existing.status)
    then raise (repository constraint (plain "cannot delete finalized disbursement"))
    else raise (repository conflict (plain "concurrent delete conflict"))

abbrev pub refuse_delete : Sql DbDisbursement → Action (Disbursement × Bool)
refuse_delete (returned existing) = delete_repeat existing
refuse_delete (failed no_rows) = raise (repository not_found (plain "disbursement not found"))
refuse_delete (failed cause) = raise (classify (raw cause))

abbrev pub deleted_or_refusal : ℕ → Sql DbDisbursement → Action (Disbursement × Bool)
deleted_or_refusal id (returned row) = pure (from_row row, false)
deleted_or_refusal id (failed no_rows) = inspect_tx (find_raw_statement id) refuse_delete
deleted_or_refusal id (failed cause) = raise (classify (raw cause))

unfoldable pub soft_delete : ℕ → ℕ → Action (Disbursement × Bool)
unfolding delete_repeat
soft_delete id now = inspect_tx (soft_delete_statement id now) (deleted_or_refusal id)
