-- ===== src/Domain/Disbursement.antt =====
-- internal/domain/disbursement.go: the values and rules of a disbursement. A uuid is a number with
-- 0 for uuid.Nil, a time the nanoseconds since the zero time, an int or int64 an integer.
pub mod Fee
pub mod BankCode
pub mod Validation
pub mod Pages
pub mod Dates
use disbursment_api.Base.{
  ℕ, ◌+◌, ◌-◌, ◌*◌, ◌%◌, Bool, true, false, not, ◌&&◌, ◌||◌, Option, List, [], ◌∷◌, ◌++◌, length,
  all, ltb, leb, ◌==◌, if◌then◌else◌, is_some,
}
use disbursment_api.Base.Int.{ℤ, pos, ltb_ℤ, int64, quot, ◌+ℤ◌, ◌-ℤ◌, pos_part, neg_part}
use disbursment_api.Base.Text.{Text, byte_len, trim_space, to_upper}
use disbursment_api.Failure.{FieldError, Failure, domain, Result, ok, err, is_ok}
use disbursment_api.Domain.Errors.{validation}

abbrev pub minimum_amount : ℤ
minimum_amount = pos 10000

abbrev pub maximum_amount : ℤ
maximum_amount = pos 100000000000

abbrev pub fee_threshold : ℤ
fee_threshold = pos 5000000

abbrev pub lower_tier_admin_fee : ℤ
lower_tier_admin_fee = pos 2500

abbrev pub upper_tier_admin_fee : ℤ
upper_tier_admin_fee = pos 5000

abbrev pub maximum_recipient_runes : ℕ
maximum_recipient_runes = 150

abbrev pub minimum_account_digits : ℕ
minimum_account_digits = 6

abbrev pub maximum_account_digits : ℕ
maximum_account_digits = 34

abbrev pub minimum_bank_code_length : ℕ
minimum_bank_code_length = 3

abbrev pub maximum_bank_code_length : ℕ
maximum_bank_code_length = 10

abbrev pub maximum_note_runes : ℕ
maximum_note_runes = 500

abbrev pub default_page : ℤ
default_page = pos 1

abbrev pub default_limit : ℤ
default_limit = pos 20

abbrev pub maximum_limit : ℤ
maximum_limit = pos 100

-- A status is a string in the source: the three that it names, or any other.
pub data DisbursementStatus : Type 0 where
  pending approved rejected : DisbursementStatus
  other_status : Text → DisbursementStatus

abbrev pub is_pending : DisbursementStatus → Bool
is_pending pending = true
is_pending _ = false

abbrev pub is_approved : DisbursementStatus → Bool
is_approved approved = true
is_approved _ = false

abbrev pub is_rejected : DisbursementStatus → Bool
is_rejected rejected = true
is_rejected _ = false

pub record CreateDisbursementInput : Type 0 where
  pub recipient_name : Text
  pub account_number : Text
  pub bank_code : Text
  pub amount : ℤ
  pub note : Text

pub record Disbursement : Type 0 where
  pub id : ℕ
  pub recipient_name : Text
  pub account_number : Text
  pub bank_code : Text
  pub amount : ℤ
  pub admin_fee : ℤ
  pub status : DisbursementStatus
  pub note : Text
  pub created_by : ℕ
  pub decided_by : ℕ
  pub decision_note : Text
  pub decided_at : Option ℕ
  pub deleted_at : Option ℕ
  pub created_at : ℕ
  pub updated_at : ℕ

pub record Decision : Type 0 where
  pub status : DisbursementStatus
  pub actor_id : ℕ
  pub note : Text

pub record Pagination : Type 0 where
  pub page : ℤ
  pub limit : ℤ
  pub total : ℤ
  pub total_pages : ℤ

pub record DateRange : Type 0 where
  pub from_inclusive : ℕ
  pub to_exclusive : ℕ

abbrev pub amount_error : FieldError
amount_error = record { field = "amount"; message = "harus antara 10000 dan 100000000000" }

abbrev pub bank_code_error : FieldError
bank_code_error = record { field = "bank_code"; message = "harus 3 sampai 10 karakter alfanumerik" }

abbrev pub invalid_input : List FieldError → Failure
invalid_input details = domain (validation details)

unfoldable pub validate_amount : ℤ → Result (Unit {0})
validate_amount amount =
    if ltb_ℤ amount minimum_amount || ltb_ℤ maximum_amount amount
    then err (invalid_input (amount_error ∷ []))
    else ok tt

abbrev fee_tier : ℤ → Result (Unit {0}) → Result ℤ
fee_tier amount (err e) = err e
fee_tier amount (ok _) =
    ok (if ltb_ℤ amount fee_threshold then lower_tier_admin_fee else upper_tier_admin_fee)

unfoldable pub calculate_admin_fee : ℤ → Result ℤ
unfolding validate_amount
calculate_admin_fee amount = fee_tier amount (validate_amount amount)

unfoldable pub is_bank_code_rune : ℕ → Bool
is_bank_code_rune c = (leb 65 c && leb c 90) || (leb 48 c && leb c 57)

-- The tests of `CanonicalBankCode` on the trimmed and upper-cased text.
unfoldable pub check_bank_code : Text → Result Text
unfolding is_bank_code_rune
check_bank_code canonical =
    if ltb (byte_len canonical) minimum_bank_code_length
      || ltb maximum_bank_code_length (byte_len canonical)
    then err (invalid_input (bank_code_error ∷ []))
    else if all is_bank_code_rune canonical
    then ok canonical
    else err (invalid_input (bank_code_error ∷ []))

unfoldable pub canonical_bank_code : Text → Result Text
canonical_bank_code value = check_bank_code (to_upper (trim_space value))

unfoldable pub is_digit : ℕ → Bool
is_digit c = leb 48 c && leb c 57

unfoldable pub valid_account_number : Text → Bool
unfolding is_digit
valid_account_number value =
    if ltb (byte_len value) minimum_account_digits || ltb maximum_account_digits (byte_len value)
    then false
    else all is_digit value

-- A detail that is appended when a test fails.
abbrev pub detail_unless : Bool → FieldError → List FieldError
detail_unless true e = []
detail_unless false e = e ∷ []

abbrev pub recipient_details : Text → List FieldError
recipient_details name =
    if length name == 0
    then record { field = "recipient_name"; message = "wajib diisi" } ∷ []
    else if ltb maximum_recipient_runes (length name)
    then record { field = "recipient_name"; message = "panjang maksimum 150" } ∷ []
    else []

abbrev pub note_error : FieldError
note_error = record { field = "note"; message = "panjang maksimum 500" }

abbrev pub account_error : FieldError
account_error = record { field = "account_number"; message = "harus berisi 6 sampai 34 digit" }

-- The details that `CreateDisbursementInput.Validate` collects, in its order.
unfoldable pub validation_details : CreateDisbursementInput → List FieldError
validation_details input =
    recipient_details input.recipient_name
    ++ (detail_unless (valid_account_number input.account_number) account_error
        ++ (detail_unless (is_ok (canonical_bank_code input.bank_code)) bank_code_error
            ++ (detail_unless (is_ok (validate_amount input.amount)) amount_error
                ++ detail_unless (leb (length input.note) maximum_note_runes) note_error)))

abbrev fail_on_details : List FieldError → Result (Unit {0})
fail_on_details [] = ok tt
fail_on_details (d ∷ ds) = err (invalid_input (d ∷ ds))

unfoldable pub validate_input : CreateDisbursementInput → Result (Unit {0})
unfolding validation_details
validate_input input = fail_on_details (validation_details input)

unfoldable pub can_transition_to : DisbursementStatus → DisbursementStatus → Bool
can_transition_to status next = is_pending status && (is_approved next || is_rejected next)

unfoldable pub validate_decision : Decision → Result (Unit {0})
validate_decision decision =
    if decision.actor_id == 0
    then err (invalid_input (record { field = "actor"; message = "wajib diisi" } ∷ []))
    else if not (is_approved decision.status) && not (is_rejected decision.status)
    then err
        (invalid_input (record { field = "status"; message = "harus APPROVED atau REJECTED" } ∷ []))
    else if ltb maximum_note_runes (length decision.note)
    then err (invalid_input (note_error ∷ []))
    else ok tt

unfoldable pub can_delete : DisbursementStatus → Option ℕ → Bool
can_delete status deleted_at = not (is_some deleted_at) && is_pending status

abbrev pub is_zero_ℤ : ℤ → Bool
is_zero_ℤ z = pos_part z + neg_part z == 0

-- The pages of a total, with the sum of `(total + limit - 1) / limit` reduced to 64 bits.
unfoldable pub page_count : ℤ → ℤ → ℤ
page_count total limit =
    if ltb_ℤ (pos 0) total
    then quot (int64 (int64 (total +ℤ limit) -ℤ pos 1)) (pos_part limit)
    else pos 0

abbrev pub pagination_error : FieldError
pagination_error = record { field = "pagination"; message = "tidak valid" }

-- `NewPagination` after its defaults are filled in.
unfoldable pub check_pagination : ℤ → ℤ → ℤ → Result Pagination
check_pagination page limit total =
    if ltb_ℤ page (pos 1) || ltb_ℤ limit (pos 1) || ltb_ℤ maximum_limit limit || ltb_ℤ total (pos 0)
    then err (invalid_input (pagination_error ∷ []))
    else ok
        (record { page = page; limit = limit; total = total; total_pages = page_count total limit })

unfoldable pub new_pagination : ℤ → ℤ → ℤ → Result Pagination
unfolding check_pagination
new_pagination page limit total =
    check_pagination (if is_zero_ℤ page then default_page else page)
      (if is_zero_ℤ limit then default_limit else limit) total

-- A day in nanoseconds. The zero time is a midnight, so the start of a UTC day is a multiple.
abbrev pub day : ℕ
day = 86400000000000

unfoldable pub start_of_utc_day : ℕ → ℕ
start_of_utc_day value = value - value % day

unfoldable pub new_utc_date_range : ℕ → ℕ → Result DateRange
unfolding start_of_utc_day
new_utc_date_range from to =
    let from_utc = start_of_utc_day from in
    let to_utc = start_of_utc_day to in
    if ltb to_utc from_utc
    then err (
        invalid_input
          (record { field = "date_range"; message = "date_from tidak boleh setelah date_to" } ∷ []))
    else ok (record { from_inclusive = from_utc; to_exclusive = to_utc + day })
