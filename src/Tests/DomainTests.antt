-- ===== src/Tests/DomainTests.antt =====
-- Theorems on internal/domain at concrete inputs.
use disbursment_api.Base.{◌≡◌, ◌↔◌, ◌≤◌, ◌<◌, refl, some, arith}
use disbursment_api.Base.Int.{pos, ◌≤ℤ◌, ◌+ℤ◌, ◌-ℤ◌, int64, quot}
use disbursment_api.Base.Text.{runes, trim_space, to_upper, byte_len}
use disbursment_api.Failure.{ok}
use disbursment_api.Domain.Audit.{Json, Members, redact_audit_value, disbursement_json}
use disbursment_api.Domain.Audit
use disbursment_api.Domain.Audit.Redaction.{
  IsClean, Masks, redact_audit_value-Masks, get_member, members_of,
  disbursement_json-account_visible,
}
use disbursment_api.Domain.Disbursement.{
  validate_input, calculate_admin_fee, minimum_amount, maximum_amount, canonical_bank_code,
  check_bank_code, Pagination, new_pagination, page_count, DateRange, new_utc_date_range,
}
use disbursment_api.Domain.Disbursement.Validation.{IsValid, validate_input-ok_iff}
use disbursment_api.Domain.Disbursement.Fee.{HasFee, calculate_admin_fee-ok_iff}
use disbursment_api.Domain.Disbursement.Pages.{Covers, new_pagination-Covers}
use disbursment_api.Domain.Disbursement.Dates.{day_of, new_utc_date_range-contains_iff}
use disbursment_api.Tests.Samples.{sample_input, sample_disbursement, sample_printer}

abbrev secrets : Json
secrets = Audit.object (
    Audit.member (runes "user")
      (Audit.object (Audit.member (runes " Password") (Audit.string (runes "x")) Audit.end))
      Audit.end)

redact_audit_value-Masks_example :
    Masks secrets (redact_audit_value secrets)
    × IsClean (redact_audit_value secrets)
    × (redact_audit_value (redact_audit_value secrets) ≡ redact_audit_value secrets)
redact_audit_value-Masks_example = redact_audit_value-Masks secrets

disbursement_json-account_visible_example :
    get_member
      (runes "AccountNumber")
      (members_of (redact_audit_value (disbursement_json sample_printer sample_disbursement)))
    ≡ some (Audit.string (runes "1234567890"))
disbursement_json-account_visible_example =
    disbursement_json-account_visible sample_printer sample_disbursement

validate_input-ok_iff_example : (validate_input sample_input ≡ ok tt) ↔ IsValid sample_input
validate_input-ok_iff_example = validate_input-ok_iff sample_input

calculate_admin_fee-ok_iff_example : (calculate_admin_fee (pos 4999999) ≡ ok (pos 2500)) ↔ (
    (minimum_amount ≤ℤ pos 4999999)
    × (pos 4999999 ≤ℤ maximum_amount)
    × HasFee (pos 4999999) (pos 2500))
calculate_admin_fee-ok_iff_example = calculate_admin_fee-ok_iff (pos 4999999) (pos 2500)

untidy_code : canonical_bank_code (runes " bca ") ≡ ok (runes "BCA")
unfolding canonical_bank_code check_bank_code trim_space to_upper byte_len
untidy_code = refl

abbrev third_page : Pagination
third_page = record { page = pos 3; limit = pos 20; total = pos 41; total_pages = pos 3 }

third_page-ok : new_pagination (pos 3) (pos 20) (pos 41) ≡ ok third_page
unfolding new_pagination page_count int64 quot ◌+ℤ◌ ◌-ℤ◌
third_page-ok = refl

new_pagination-Covers_example : Covers 41 third_page
new_pagination-Covers_example =
    new_pagination-Covers (pos 3) (pos 20) 41 (ground arith) third_page-ok

abbrev january : DateRange
january = record { from_inclusive = 0; to_exclusive = 2678400000000000 }

january-ok : new_utc_date_range 5 2600000000000000 ≡ ok january
unfolding new_utc_date_range
january-ok = refl

new_utc_date_range-contains_iff_example :
    ((january.from_inclusive ≤ 7) × (7 < january.to_exclusive))
    ↔ ((day_of 5 ≤ day_of 7) × (day_of 7 ≤ day_of 2600000000000000))
new_utc_date_range-contains_iff_example =
    new_utc_date_range-contains_iff 5 2600000000000000 7 january-ok
