-- ===== src/Repository/Tables.antt =====
-- The rows of the tables, from the structs that the stores scan them into and the schema in
-- migrations/000001_initial_schema.up.sql. A table is a list of rows in order of insertion.
use Prim.Native.String.{String}
use disbursment_api.Base.{ℕ, Bool, Option, List}
use disbursment_api.Base.Int.{ℤ}
use disbursment_api.Base.Text.{Text}
use disbursment_api.Domain.Disbursement.{DisbursementStatus}
use disbursment_api.Domain.Idempotency.{IdempotencyState, IdempotencyScope}
use disbursment_api.Domain.Audit.{AuditEvent}

-- `dbDisbursement`.
pub record DbDisbursement : Type 0 where
  pub id : ℕ
  pub recipient_name : Text
  pub account_number : Text
  pub bank_code : Text
  pub amount : ℤ
  pub admin_fee : ℤ
  pub status : DisbursementStatus
  pub note : Option Text
  pub created_by : ℕ
  pub decided_by : Option ℕ
  pub decision_note : Option Text
  pub decided_at : Option ℕ
  pub deleted_at : Option ℕ
  pub created_at : ℕ
  pub updated_at : ℕ

-- A row of idempotency_keys: its key and the columns of `storedIdempotencyClaim`.
pub record StoredClaim : Type 0 where
  pub scope : IdempotencyScope
  pub request_hash : ℕ
  pub state : IdempotencyState
  pub claim_id : ℕ
  pub lease_until : ℕ
  pub expires_at : ℕ
  pub disbursement_id : Option ℕ
  pub response_status : Option ℕ
  pub response_body : Option Text

-- `RefreshSession`.
pub record RefreshSession : Type 0 where
  pub id : ℕ
  pub user_id : ℕ
  pub token_hash : Text
  pub expires_at : ℕ
  pub revoked_at : Option ℕ
  pub replaced_by_id : Option ℕ

-- `User`.
pub record User : Type 0 where
  pub id : ℕ
  pub username : Text
  pub password_hash : Text
  pub role : Text

-- A row of audit_outbox; `delivered_at` is set exactly in the state DELIVERED.
pub record OutboxRow : Type 0 where
  pub event : AuditEvent
  pub delivered : Bool
  pub available_at : ℕ
  pub delivered_at : Option ℕ
  pub delivery_attempts : ℕ
  pub last_delivery_error : Option String

pub record Tables : Type 0 where
  pub disbursements : List DbDisbursement
  pub idempotency_keys : List StoredClaim
  pub refresh_sessions : List RefreshSession
  pub users : List User
  pub audit_outbox : List OutboxRow
  pub audit_logs : List AuditEvent
