-- ===== src/Domain/Idempotency.antt =====
-- internal/domain/idempotency.go: claims on idempotency keys, and when a request is well formed.
-- A fingerprint is the number that its 32 bytes spell; a body is a JSON text.
use disbursment_api.Base.{ℕ, Bool, not, ◌&&◌, Option, none, some, ltb, leb, ◌==◌, if◌then◌else◌, []}
use disbursment_api.Base.Text.{Text, is_empty}
use disbursment_api.Failure.{ErrorCode, Failure, domain, Result, ok, err}

pub data IdempotencyState : Type 0 where
  in_progress completed : IdempotencyState

abbrev pub is_in_progress : IdempotencyState → Bool
is_in_progress in_progress = Bool.true
is_in_progress completed = Bool.false

abbrev pub is_completed : IdempotencyState → Bool
is_completed in_progress = Bool.false
is_completed completed = Bool.true

-- `claim_in_progress` and the others are the source's ClaimInProgress, …; `no_outcome` is the empty
-- outcome of a zero result.
pub data ClaimOutcome : Type 0 where
  claim_acquired claim_replayed claim_in_progress claim_reused no_outcome : ClaimOutcome

pub record IdempotencyScope : Type 0 where
  pub user_id : ℕ
  pub endpoint : Text
  pub key : ℕ

pub record IdempotencyClaimRequest : Type 0 where
  pub scope : IdempotencyScope
  pub fingerprint : ℕ
  pub claim_id : ℕ
  pub lease_until : ℕ
  pub expires_at : ℕ
  pub now : ℕ

pub record ReplayResponse : Type 0 where
  pub status_code : ℕ
  pub body : Text
  pub disbursement_id : ℕ

pub record IdempotencyClaimResult : Type 0 where
  pub outcome : ClaimOutcome
  pub claim_id : ℕ
  pub replay : Option ReplayResponse
  pub retry_after : ℕ

pub record IdempotencyCompletion : Type 0 where
  pub scope : IdempotencyScope
  pub claim_id : ℕ
  pub response : ReplayResponse
  pub completed_at : ℕ

-- A result with only its outcome set.
abbrev pub only_outcome : ClaimOutcome → IdempotencyClaimResult
only_outcome outcome = record { outcome = outcome; claim_id = 0; replay = none; retry_after = 0 }

-- What the program needs of google/uuid: parsing, and the version of the result.
pub record Uuids : Type 0 where
  pub parse : Text → Option ℕ
  pub version : ℕ → ℕ

abbrev pub key_error : Failure
key_error = domain (record {
  code = ErrorCode.invalid_idempotency_key;
  message = "Idempotency-Key harus UUID v4";
  status = 400;
  details = [];
  retry_after = 0;
})

abbrev check_version : Uuids → Option ℕ → Result ℕ
check_version uuids none = err key_error
check_version uuids (some key) = if uuids.version key == 4 then ok key else err key_error

unfoldable pub parse_idempotency_key : Uuids → Text → Result ℕ
parse_idempotency_key uuids value = check_version uuids (uuids.parse value)

unfoldable pub scope_valid : IdempotencyScope → Bool
scope_valid scope =
    not (scope.user_id == 0) && (not (is_empty scope.endpoint) && not (scope.key == 0))

unfoldable pub request_valid : IdempotencyClaimRequest → Bool
unfolding scope_valid
request_valid request =
    scope_valid request.scope
    && (not (request.claim_id == 0)
        && (ltb request.now request.lease_until && ltb request.lease_until request.expires_at))

-- `json_valid` is encoding/json's Valid.
unfoldable pub response_valid : (Text → Bool) → ReplayResponse → Bool
response_valid json_valid response =
    leb 200 response.status_code
    && (leb response.status_code 299
        && (not (response.disbursement_id == 0) && json_valid response.body))

unfoldable pub completion_valid : (Text → Bool) → IdempotencyCompletion → Bool
unfolding scope_valid response_valid
completion_valid json_valid completion =
    scope_valid completion.scope
    && (not (completion.claim_id == 0)
        && (response_valid json_valid completion.response && not (completion.completed_at == 0)))
