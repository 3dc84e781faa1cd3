-- ===== src/Domain/Errors.antt =====
-- internal/domain/error.go: one constructor function for each error that the API answers with.
use disbursment_api.Base.{ℕ, List, []}
use disbursment_api.Failure.{
  ErrorCode, validation_failed, FieldError, DomainError, Failure, domain, repository, raw,
}

unfoldable pub validation : List FieldError → DomainError
validation details = record {
  code = validation_failed;
  message = "Input tidak valid";
  status = 400;
  details = details;
  retry_after = 0;
}

unfoldable pub invalid_credentials : DomainError
invalid_credentials = record {
  code = ErrorCode.invalid_credentials;
  message = "Kredensial tidak valid";
  status = 401;
  details = [];
  retry_after = 0;
}

unfoldable pub invalid_idempotency_key : DomainError
invalid_idempotency_key = record {
  code = ErrorCode.invalid_idempotency_key;
  message = "Header Idempotency-Key tidak valid atau tidak ada";
  status = 400;
  details = [];
  retry_after = 0;
}

unfoldable pub unauthorized : DomainError
unauthorized = record {
  code = ErrorCode.unauthorized;
  message = "Autentikasi diperlukan";
  status = 401;
  details = [];
  retry_after = 0;
}

unfoldable pub invalid_refresh_token : DomainError
invalid_refresh_token = record {
  code = ErrorCode.invalid_refresh_token;
  message = "Refresh token tidak valid";
  status = 401;
  details = [];
  retry_after = 0;
}

unfoldable pub forbidden : DomainError
forbidden = record {
  code = ErrorCode.forbidden;
  message = "Akses ditolak";
  status = 403;
  details = [];
  retry_after = 0;
}

unfoldable pub internal : DomainError
internal = record {
  code = ErrorCode.internal_error;
  message = "Terjadi kesalahan internal";
  status = 500;
  details = [];
  retry_after = 0;
}

unfoldable pub disbursement_not_found : DomainError
disbursement_not_found = record {
  code = ErrorCode.disbursement_not_found;
  message = "Disbursement tidak ditemukan";
  status = 404;
  details = [];
  retry_after = 0;
}

unfoldable pub disbursement_already_finalized : DomainError
disbursement_already_finalized = record {
  code = ErrorCode.disbursement_already_finalized;
  message = "Disbursement sudah difinalisasi";
  status = 409;
  details = [];
  retry_after = 0;
}

unfoldable pub disbursement_not_deletable : DomainError
disbursement_not_deletable = record {
  code = ErrorCode.disbursement_not_deletable;
  message = "Disbursement tidak dapat dihapus karena sudah difinalisasi";
  status = 400;
  details = [];
  retry_after = 0;
}

unfoldable pub concurrent_modification : DomainError
concurrent_modification = record {
  code = ErrorCode.concurrent_modification;
  message = "Terjadi konflik modifikasi simultan";
  status = 409;
  details = [];
  retry_after = 0;
}

unfoldable pub idempotency_key_reused : DomainError
idempotency_key_reused = record {
  code = ErrorCode.idempotency_key_reused;
  message = "Idempotency key telah digunakan dengan payload berbeda";
  status = 409;
  details = [];
  retry_after = 0;
}

unfoldable pub idempotency_request_in_progress : DomainError
idempotency_request_in_progress = record {
  code = ErrorCode.idempotency_in_progress;
  message = "Request dengan idempotency key yang sama sedang diproses";
  status = 409;
  details = [];
  retry_after = 0;
}

unfoldable pub idempotency_request_in_progress_with_retry_after : ℕ → DomainError
idempotency_request_in_progress_with_retry_after retry_after =
    record idempotency_request_in_progress { retry_after = retry_after }

-- `AsError`: the domain error, or an internal one in its place.
unfoldable pub as_error : Failure → DomainError
as_error (domain e) = e
as_error (repository category cause) = internal
as_error (raw cause) = internal
