-- ===== src/Domain/Disbursement/Validation.antt =====
-- internal/domain/disbursement.go, CreateDisbursementInput.Validate and Decision.Validate.
use disbursment_api.Base.Text.{Text, to_upper, trim_space, byte_len}
use disbursment_api.Domain.Disbursement.BankCode.{byte_len-bank_code}
use disbursment_api.Base.{
  [], ◌∷◌, ℕ, refl, all, All, ◌≤◌, ◌<◌, ◌≡◌, ◌≢◌, ◌↔◌, ◌⊎◌, true, length, arith,
}
use disbursment_api.Base.Int.{◌≤ℤ◌, pos}
use disbursment_api.Failure.{ok, is_ok}
use disbursment_api.Domain.Disbursement.{
  CreateDisbursementInput, Decision, approved, rejected, minimum_amount, maximum_amount, is_digit,
  is_bank_code_rune, check_bank_code, canonical_bank_code, valid_account_number, validate_amount,
  validate_input, validate_decision,
}

-- What the checks of the code ask of an input, with those of the account number and the bank code as they
-- stand.
pub record Passes (input : CreateDisbursementInput) : Type 0 where
  pub named : 0 < length input.recipient_name
  pub name_fits : length input.recipient_name ≤ 150
  pub account_valid : valid_account_number input.account_number ≡ true
  pub bank_valid : is_ok (canonical_bank_code input.bank_code) ≡ true
  pub amount_above : minimum_amount ≤ℤ input.amount
  pub amount_below : input.amount ≤ℤ maximum_amount
  pub note_fits : length input.note ≤ 500

pub validate_input-Passes_iff :
    (input : CreateDisbursementInput) → (validate_input input ≡ ok tt) ↔ Passes input
unfolding validate_input validate_amount
validate_input-Passes_iff input = (λ h. ground arith, λ v. ground arith)

-- ASCII digits and capitals, by their code points.
abbrev pub IsDigit : ℕ → Type 0
IsDigit c = (48 ≤ c) × (c ≤ 57)

abbrev pub IsDigitOrCapital : ℕ → Type 0
IsDigitOrCapital c = ((65 ≤ c) × (c ≤ 90)) ⊎ ((48 ≤ c) × (c ≤ 57))

-- A text between two lengths of which every rune is of a kind.
pub record IsText (Kind : ℕ → Type 0) (least most : ℕ) (s : Text) : Type 0 where
  pub long_enough : least ≤ length s
  pub short_enough : length s ≤ most
  pub runes_kind : All Kind s

-- What the README asks of an input: a recipient of 1 to 150 runes, an account number of 6 to 34 digits, a
-- bank code of 3 to 10 capitals and digits once it is trimmed and in upper case, an amount from 10,000 to
-- 100,000,000,000, and a note of at most 500 runes.
pub record IsValid (input : CreateDisbursementInput) : Type 0 where
  pub named : 1 ≤ length input.recipient_name
  pub name_fits : length input.recipient_name ≤ 150
  pub account : IsText IsDigit 6 34 input.account_number
  pub bank : IsText IsDigitOrCapital 3 10 (to_upper (trim_space input.bank_code))
  pub amount_above : pos 10000 ≤ℤ input.amount
  pub amount_below : input.amount ≤ℤ pos 100000000000
  pub note_fits : length input.note ≤ 500

pub byte_len-digits : (s : Text) → all is_digit s ≡ true → byte_len s ≡ length s
unfolding byte_len is_digit
byte_len-digits [] h = refl
byte_len-digits (c ∷ s) h = ground (arith, byte_len-digits s)

all-digits_iff : (s : Text) → (all is_digit s ≡ true) ↔ All IsDigit s
unfolding is_digit
all-digits_iff [] = (λ h. tt, λ h. refl)
all-digits_iff (c ∷ s) =
    let rest = all-digits_iff s in
    (
      λ h. ((ground arith, ground arith), rest.0 (ground arith)),
      λ h. let tail : all is_digit s ≡ true = rest.1 h.1 in ground (arith, tail, h.0),
    )

all-bank_code_iff : (s : Text) → (all is_bank_code_rune s ≡ true) ↔ All IsDigitOrCapital s
unfolding is_bank_code_rune
all-bank_code_iff [] = (λ h. tt, λ h. refl)
all-bank_code_iff (c ∷ s) =
    let rest = all-bank_code_iff s in
    (
      λ h. (ground arith, rest.0 (ground arith)),
      λ h. let tail : all is_bank_code_rune s ≡ true = rest.1 h.1 in ground (arith, tail, h.0),
    )

valid_account_number-IsText : (s : Text) → (valid_account_number s ≡ true) ↔ IsText IsDigit 6 34 s
unfolding valid_account_number
valid_account_number-IsText s = (
  λ h.
      let digits : all is_digit s ≡ true = ground arith in
      let same = byte_len-digits s digits in
      record {
        long_enough = ground (arith, same);
        short_enough = ground (arith, same);
        runes_kind = (all-digits_iff s).0 digits;
      },
  λ h.
      let digits = (all-digits_iff s).1 h.runes_kind in
      let same = byte_len-digits s digits in ground (arith, digits, same),
)

check_bank_code-IsText :
    (s : Text) → (is_ok (check_bank_code s) ≡ true) ↔ IsText IsDigitOrCapital 3 10 s
unfolding check_bank_code
check_bank_code-IsText s = (
  λ h.
      let good : all is_bank_code_rune s ≡ true = ground arith in
      let same = byte_len-bank_code s good in
      record {
        long_enough = ground (arith, same);
        short_enough = ground (arith, same);
        runes_kind = (all-bank_code_iff s).0 good;
      },
  λ h.
      let good = (all-bank_code_iff s).1 h.runes_kind in
      let same = byte_len-bank_code s good in ground (arith, good, same),
)

-- An input is accepted exactly if it satisfies all that the README asks of it, in `IsValid`.
pub validate_input-ok_iff :
    (input : CreateDisbursementInput) → (validate_input input ≡ ok tt) ↔ IsValid input
unfolding canonical_bank_code
validate_input-ok_iff input =
    let passes = validate_input-Passes_iff input in
    let account = valid_account_number-IsText input.account_number in
    let bank = check_bank_code-IsText (to_upper (trim_space input.bank_code)) in
    (
      λ h.
          let p = passes.0 h in
          record {
            named = omega (arith, p.named);
            name_fits = p.name_fits;
            account = account.0 p.account_valid;
            bank = bank.0 p.bank_valid;
            amount_above = p.amount_above;
            amount_below = p.amount_below;
            note_fits = p.note_fits;
          },
      λ v. passes.1 (record {
        named = omega (arith, v.named);
        name_fits = v.name_fits;
        account_valid = account.1 v.account;
        bank_valid = bank.1 v.bank;
        amount_above = v.amount_above;
        amount_below = v.amount_below;
        note_fits = v.note_fits;
      }),
    )

-- A decision is accepted exactly if it has an actor, approves or rejects, and its note fits.
validate_decision-ok_iff :
    (decision : Decision)
    → (validate_decision decision ≡ ok tt) ↔ (
        (decision.actor_id ≢ 0)
        × ((decision.status ≡ approved) ⊎ (decision.status ≡ rejected))
        × (length decision.note ≤ 500))
unfolding validate_decision
validate_decision-ok_iff decision = (λ h. ground arith, λ v. ground arith)
