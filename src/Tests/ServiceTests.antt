-- ===== src/Tests/ServiceTests.antt =====
-- Theorems on internal/service at concrete inputs.
use disbursment_api.Base.{ℕ, ◌+◌, ◌*◌, ◌≤◌, ◌<◌, true, ◌≡◌, refl, false, none, some, [], ◌∷◌, arith}
use disbursment_api.Base.Int.{pos}
use disbursment_api.Base.Text.{runes, text_eq, trim_space, to_upper, byte_len}
use disbursment_api.Failure.{ok, is_ok}
use disbursment_api.Domain.Disbursement.{
  validate_input, canonical_bank_code, check_bank_code, valid_account_number, validate_amount,
  calculate_admin_fee,
}
use disbursment_api.Repository.Errors.{classify}
use disbursment_api.Repository.Sessions
use disbursment_api.Repository.Sessions.{
  find_session_statement, find_user_statement, insert_session_statement, fresh_session, is_live,
  rotate_statement, rotated, revoke_statement,
}
use disbursment_api.Repository.World.{
  attempt, ◌>>=◌, mapping_error, exec_tx, query_tx, exec_pool, query_pool, begin, commit, answer_tx,
  answer_pool, record_metric, within_transaction,
}
use disbursment_api.Repository.Disbursements.{to_row, broken_constraint}
use disbursment_api.Repository.IdempotencyKeys.{same_scope, second, classify_claim}
use disbursment_api.Service.Idempotency.Prints.{fingerprint_bytes-injective}
use disbursment_api.Service.Disbursement.{store_disbursement, new_disbursement}
use disbursment_api.Service.Disbursement.Trail.{Audited, audited_row}
use disbursment_api.Service.Disbursement.Accepted.{new_disbursement-constraints}
use disbursment_api.Service.Disbursement.Fenced.{holds_claim, store_disbursement-lost_claim}
use disbursment_api.Service.Auth.{
  refresh, logout, store_refresh, new_session, generate_access_token,
}
use disbursment_api.Service.Auth.Refreshing.{UniqueHash}
use disbursment_api.Service.Auth.Revoking.{refresh-refresh, logout-refresh}
use disbursment_api.Domain.Idempotency.{IdempotencyClaimResult, claim_in_progress}
use disbursment_api.Response.Waiting.{in_progress_response, classify_claim-retry_after}
use disbursment_api.Tests.Samples.{
  sample_claim, sample_request, sample_auth, sample_auth_readings, sample_tables, sample_world,
  sample_env, sample_service, sample_readings, sample_input, sample_disbursement, sample_scope,
  sample_user,
}

pub sample_tables-Audited : Audited sample_tables
unfolding audited_row text_eq
sample_tables-Audited = (refl, tt)

not_held : holds_claim sample_scope 43 sample_tables ≡ false
unfolding same_scope text_eq
not_held = refl

store_disbursement-lost_claim_example :
    (is_ok
        (within_transaction
          (store_disbursement sample_service sample_readings 7 31 sample_scope 43
            sample_disbursement)
          sample_env
          sample_world).0
      ≡ false)
    × ((within_transaction
          (store_disbursement sample_service sample_readings 7 31 sample_scope 43
            sample_disbursement)
          sample_env
          sample_world).1.committed
        ≡ sample_tables)
store_disbursement-lost_claim_example =
    store_disbursement-lost_claim sample_env sample_service sample_readings 7 31 sample_scope 43
      sample_disbursement sample_world not_held

sample_input-valid : validate_input sample_input ≡ ok tt
unfolding validate_input canonical_bank_code check_bank_code valid_account_number validate_amount
    trim_space to_upper byte_len
sample_input-valid = refl

sample_input-fee : calculate_admin_fee (pos 5000000) ≡ ok (pos 5000)
unfolding calculate_admin_fee
sample_input-fee = refl

sample_input-code : canonical_bank_code (runes "BCA") ≡ ok (runes "BCA")
unfolding canonical_bank_code check_bank_code trim_space to_upper byte_len
sample_input-code = refl

new_disbursement-constraints_example :
    broken_constraint
      (sample_user ∷ [])
      (to_row (new_disbursement sample_readings 7 sample_input (pos 5000) (runes "BCA")))
    ≡ none
new_disbursement-constraints_example =
    new_disbursement-constraints (sample_user ∷ []) sample_readings 7 sample_input (pos 5000)
      (runes "BCA") sample_input-valid sample_input-fee sample_input-code refl

fingerprint_bytes-injective_example :
    (runes "POST" ≡ runes "POST") × (runes "/a" ≡ runes "/a") × (runes "null" ≡ runes "null")
fingerprint_bytes-injective_example =
    fingerprint_bytes-injective (runes "POST") (runes "/a") (runes "null") (runes "POST")
      (runes "/a") (runes "null") (ground arith) (ground arith) (ground arith) (ground arith) refl

one_session_there : UniqueHash (runes "aa") sample_tables
unfolding text_eq
one_session_there = ground arith

sample_refresh-ok :
    is_ok (refresh sample_auth sample_auth_readings (runes "aa") sample_env sample_world).0 ≡ true
unfolding refresh attempt within_transaction store_refresh ◌>>=◌ mapping_error
    Sessions.find_by_token_hash exec_tx query_tx find_session_statement text_eq
    Sessions.find_user_by_id exec_pool query_pool find_user_statement Sessions.rotate
    insert_session_statement new_session fresh_session is_live rotate_statement rotated
    generate_access_token begin commit answer_tx answer_pool record_metric classify
sample_refresh-ok = refl

refresh-refresh_example :
    is_ok
      (refresh sample_auth sample_auth_readings
        (runes "aa")
        sample_env
        (refresh sample_auth sample_auth_readings (runes "aa") sample_env sample_world).1).0
    ≡ false
refresh-refresh_example =
    refresh-refresh sample_env sample_auth sample_auth_readings sample_auth_readings (runes "aa")
      sample_world (λ n t h. h) (λ n t h. h) one_session_there sample_refresh-ok

sample_logout-ok :
    is_ok (logout sample_auth sample_auth_readings (runes "aa") sample_env sample_world).0 ≡ true
unfolding logout within_transaction Sessions.revoke_by_token_hash exec_tx query_tx revoke_statement
sample_logout-ok = refl

logout-refresh_example :
    is_ok
      (refresh sample_auth sample_auth_readings
        (runes "aa")
        sample_env
        (logout sample_auth sample_auth_readings (runes "aa") sample_env sample_world).1).0
    ≡ false
logout-refresh_example =
    logout-refresh sample_env sample_auth sample_auth_readings sample_auth_readings (runes "aa")
      sample_world (λ n t h. h) refl sample_logout-ok

-- The lease of the sample claim ends 50 nanoseconds after the request: one second is to be waited.
abbrev waiting_result : IdempotencyClaimResult
waiting_result = record {
  outcome = claim_in_progress;
  claim_id = 0;
  replay = none;
  retry_after = 1000000000;
}

classify_claim-retry_after_example :
    (seconds : ℕ) × (((in_progress_response (runes "r") waiting_result).retry_after_seconds
        ≡ some seconds)
      × ((200 ≤ 150 + seconds * second) × (150 + seconds * second < 200 + second)))
unfolding classify_claim
classify_claim-retry_after_example =
    classify_claim-retry_after (λ s. true) sample_claim sample_request waiting_result (runes "r")
      refl refl
