-- ===== src/Response.antt =====
-- internal/httpapi/response/response.go: what the API answers, before it is written as JSON.
pub mod Waiting
use disbursment_api.Base.{
  ℕ, suc, ◌/◌, ◌%◌, Bool, Option, none, some, List, ltb, ◌==◌, if◌then◌else◌,
}
use disbursment_api.Base.Text.{Text}
use disbursment_api.Failure.{ErrorCode, FieldError, DomainError, Failure}
use disbursment_api.Domain.Errors.{as_error}
use disbursment_api.Repository.IdempotencyKeys.{second}
use Prim.Native.String.{String}

pub record Body : Type 0 where
  pub code : ErrorCode
  pub message : String
  pub details : List FieldError

-- The status, the header Retry-After where it is set, and the fields of `Error`.
pub record ErrorResponse : Type 0 where
  pub status : ℕ
  pub retry_after_seconds : Option ℕ
  pub error : Body
  pub request_id : Text

unfoldable pub retry_after_header : ℕ → Option ℕ
retry_after_header retry_after =
    if ltb 0 retry_after
    then some
        (if retry_after % second == 0 then retry_after / second else suc (retry_after / second))
    else none

unfoldable pub error_response : DomainError → Text → ErrorResponse
error_response e request_id = record {
  status = e.status;
  retry_after_seconds = retry_after_header e.retry_after;
  error = record { code = e.code; message = e.message; details = e.details };
  request_id = request_id;
}

unfoldable pub write_error : Text → Failure → ErrorResponse
unfolding error_response
write_error request_id failure = error_response (as_error failure) request_id
