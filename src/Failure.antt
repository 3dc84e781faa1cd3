-- ===== src/Failure.antt =====
-- Go's `error` values as the program tells them apart: internal/domain/error.go's Error,
-- internal/repository/errors.go's Error with its cause, and the plain errors below both.
use Prim.Native.String.{String}
use disbursment_api.Base.{ℕ, Bool, true, false, List}

-- The codes of internal/domain/error.go, and the one of the rate limiter.
pub data ErrorCode : Type 0 where
  validation_failed invalid_idempotency_key invalid_credentials unauthorized : ErrorCode
  invalid_refresh_token forbidden disbursement_not_found : ErrorCode
  disbursement_already_finalized disbursement_not_deletable : ErrorCode
  concurrent_modification idempotency_key_reused idempotency_in_progress : ErrorCode
  internal_error too_many_requests : ErrorCode

pub record FieldError : Type 0 where
  pub field : String
  pub message : String

pub record DomainError : Type 0 where
  pub code : ErrorCode
  pub message : String
  pub status : ℕ
  pub details : List FieldError
  pub retry_after : ℕ

pub data ErrorCategory : Type 0 where
  not_found conflict ownership_lost constraint dependency : ErrorCategory

-- The errors below the program's own: database/sql's, context's, lib/pq's with its SQLSTATE, and those
-- of fmt.Errorf.
pub data Cause : Type 0 where
  no_rows canceled deadline_exceeded : Cause
  postgres : String → Cause
  plain : String → Cause

pub data Failure : Type 0 where
  domain : DomainError → Failure
  repository : ErrorCategory → Cause → Failure
  raw : Cause → Failure

-- A value and a nil error, or an error.
pub data Result (A : Type 0) : Type 0 where
  err : Failure → Result A
  ok : A → Result A

abbrev pub is_ok : {A : Type 0} → Result A → Bool
is_ok (ok a) = true
is_ok (err e) = false
