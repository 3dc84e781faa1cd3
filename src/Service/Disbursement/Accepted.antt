-- ===== src/Service/Disbursement/Accepted.antt =====
-- internal/service/disbursement/service.go, `Create`, against the table of disbursements: what its
-- validations let through, the table's constraints do too.
use disbursment_api.Base.{ℕ, ◌≤◌, ◌≡◌, refl, true, none, List, [], ◌∷◌, length, all, arith}
use disbursment_api.Base.Int.{ℤ}
use disbursment_api.Base.Text.{Text}
use disbursment_api.Failure.{ok}
use disbursment_api.Domain.Disbursement.{
  CreateDisbursementInput, is_digit, canonical_bank_code, calculate_admin_fee, valid_account_number,
  validate_input,
}
use disbursment_api.Domain.Disbursement.Validation.{byte_len-digits, validate_input-Passes_iff}
use disbursment_api.Domain.Disbursement.BankCode.{canonical_bank_code-IsCanonical}
use disbursment_api.Domain.Disbursement.Fee.{calculate_admin_fee-ok_iff}
use disbursment_api.Repository.Tables.{User}
use disbursment_api.Repository.Disbursements.{
  to_row, null_if_empty, fits, lengths_fit, money_check, state_check, broken_constraint,
  user_exists,
}
use disbursment_api.Service.Disbursement.{Readings, new_disbursement}

record IsAccount (s : Text) : Type 0 where
  long_enough : 6 ≤ length s
  short_enough : length s ≤ 34
  digits : all is_digit s ≡ true

valid_account_number-IsAccount : (s : Text) → valid_account_number s ≡ true → IsAccount s
unfolding valid_account_number
valid_account_number-IsAccount s h =
    let digits : all is_digit s ≡ true = ground arith in
    let same = byte_len-digits s digits in
    record { long_enough = ground arith; short_enough = ground arith; digits = digits }

null_if_empty-fits : (s : Text) → length s ≤ 500 → fits 500 (null_if_empty s) ≡ true
null_if_empty-fits [] h = refl
null_if_empty-fits (c ∷ s) h = ground arith

module _ (users : List User) (readings : Readings) (actor_id : ℕ) (input : CreateDisbursementInput)
    (fee : ℤ) (code : Text) where
  -- An input that passes the validations, with the fee and the canonical bank code that are computed
  -- for it, makes a row that breaks no constraint of the table, if its actor is a user.
  pub new_disbursement-constraints :
      validate_input input ≡ ok tt
      → calculate_admin_fee input.amount ≡ ok fee
      → canonical_bank_code input.bank_code ≡ ok code
      → user_exists actor_id users ≡ true
      → broken_constraint users (to_row (new_disbursement readings actor_id input fee code)) ≡ none
  unfolding new_disbursement to_row broken_constraint lengths_fit money_check state_check
  new_disbursement-constraints valid has_fee canonical known =
      let input_valid = (validate_input-Passes_iff input).0 valid in
      let account = valid_account_number-IsAccount input.account_number input_valid.account_valid in
      let fee_right = (calculate_admin_fee-ok_iff input.amount fee).0 has_fee in
      let bank = canonical_bank_code-IsCanonical input.bank_code canonical in
      let note = null_if_empty-fits input.note input_valid.note_fits in ground arith
