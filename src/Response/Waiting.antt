-- ===== src/Response/Waiting.antt =====
-- internal/httpapi/response/response.go with internal/repository/postgres/idempotency.go and
-- internal/domain/error.go: the Retry-After of a claim that is in progress.
use disbursment_api.Base.{ℕ, ◌+◌, ◌-◌, ◌*◌, ◌/◌, ◌≤◌, ◌<◌, ◌≡◌, ◌∙◌, ap, Bool, some, arith}
use disbursment_api.Base.Text.{Text}
use disbursment_api.Failure.{domain}
use disbursment_api.Domain.Errors.{as_error, idempotency_request_in_progress_with_retry_after}
use disbursment_api.Domain.Idempotency.{
  IdempotencyClaimRequest, IdempotencyClaimResult, claim_in_progress,
}
use disbursment_api.Repository.Tables.{StoredClaim}
use disbursment_api.Repository.IdempotencyKeys.{second, classify_claim, ceil_seconds}
use disbursment_api.Response.{ErrorResponse, retry_after_header, error_response, write_error}

-- A lease that ends in d is waited for in whole seconds, less than one too many.
header-ceil_seconds :
    (d : ℕ)
    → 0 < d
    → (seconds : ℕ) × ((retry_after_header (ceil_seconds d) ≡ some seconds)
        × ((d ≤ seconds * second) × (seconds * second < d + second)))
unfolding retry_after_header ceil_seconds
header-ceil_seconds d positive =
    ((d + (second - 1)) / second, (ground arith, (omega arith, omega arith)))

in_progress-waits :
    (json_valid : Text → Bool) (stored : StoredClaim) (request : IdempotencyClaimRequest)
    (result : IdempotencyClaimResult)
    → classify_claim json_valid stored request ≡ some result
    → result.outcome ≡ claim_in_progress
    → (request.now < stored.lease_until)
      × (result.retry_after ≡ ceil_seconds (stored.lease_until - request.now))
unfolding classify_claim
in_progress-waits json_valid stored request result classified waiting =
    ground (arith, classified, waiting)

abbrev pub in_progress_response : Text → IdempotencyClaimResult → ErrorResponse
in_progress_response request_id result =
    write_error request_id
      (domain (idempotency_request_in_progress_with_retry_after result.retry_after))

-- Let the store find the claim of a request in progress, the request being read at its own time. The
-- error that the service makes of that is answered with a Retry-After of some number of seconds. After
-- them the lease of that claim has ended, and less than one second of the wait was too much.
pub classify_claim-retry_after :
    (json_valid : Text → Bool) (stored : StoredClaim) (request : IdempotencyClaimRequest)
    (result : IdempotencyClaimResult) (request_id : Text)
    → classify_claim json_valid stored request ≡ some result
    → result.outcome ≡ claim_in_progress
    → (seconds : ℕ) × (((in_progress_response request_id result).retry_after_seconds ≡ some seconds)
        × ((stored.lease_until ≤ request.now + seconds * second)
            × (request.now + seconds * second < stored.lease_until + second)))
unfolding write_error error_response as_error idempotency_request_in_progress_with_retry_after
classify_claim-retry_after json_valid stored request result request_id classified waiting =
    let waits = in_progress-waits json_valid stored request result classified waiting in
    let started : request.now < stored.lease_until = waits.0 in
    let left : 0 < stored.lease_until - request.now = omega arith in
    let wait = header-ceil_seconds (stored.lease_until - request.now) left in
    let enough = wait.1.1.0 in
    let short = wait.1.1.1 in
    (wait.0, (ap retry_after_header waits.1 ∙ wait.1.0, (omega arith, omega arith)))
