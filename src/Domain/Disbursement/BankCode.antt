-- ===== src/Domain/Disbursement/BankCode.antt =====
-- internal/domain/disbursement.go, CanonicalBankCode: the canonical form of a bank code.
use disbursment_api.Base.{
  ℕ, ◌≤◌, ◌≡◌, refl, true, false, [], ◌∷◌, length, all, arith, Bool-cases, inl, inr,
}
use disbursment_api.Base.Text.{
  Text, byte_len, is_space, trim_left, trim_right, trim_space, cons_trimmed, upper_rune, to_upper,
}
use disbursment_api.Failure.{ok}
use disbursment_api.Domain.Disbursement.{is_bank_code_rune, check_bank_code, canonical_bank_code}

upper_rune-bank_code : (c : ℕ) → is_bank_code_rune c ≡ true → upper_rune c ≡ c
unfolding is_bank_code_rune upper_rune
upper_rune-bank_code c h = ground arith

is_space-bank_code : (c : ℕ) → is_bank_code_rune c ≡ true → is_space c ≡ false
unfolding is_bank_code_rune is_space
is_space-bank_code c h = ground arith

all-head : (c : ℕ) (s : Text) → all is_bank_code_rune (c ∷ s) ≡ true → is_bank_code_rune c ≡ true
all-head c s h = ground arith

all-tail :
    (c : ℕ) (s : Text) → all is_bank_code_rune (c ∷ s) ≡ true → all is_bank_code_rune s ≡ true
all-tail c s h = ground arith

to_upper-bank_code : (s : Text) → all is_bank_code_rune s ≡ true → to_upper s ≡ s
unfolding to_upper
to_upper-bank_code [] h = refl
to_upper-bank_code (c ∷ s) h =
    cc (upper_rune-bank_code c (all-head c s h), to_upper-bank_code s (all-tail c s h))

cons_trimmed_lem : (c : ℕ) (s : Text) → is_space c ≡ false → cons_trimmed c s ≡ c ∷ s
cons_trimmed_lem c [] h = rw h
cons_trimmed_lem c (d ∷ s) h = refl

trim_right-bank_code : (s : Text) → all is_bank_code_rune s ≡ true → trim_right s ≡ s
unfolding trim_right
trim_right-bank_code [] h = refl
trim_right-bank_code (c ∷ s) h =
    rw (trim_right-bank_code s (all-tail c s h))
      (cons_trimmed_lem c s (is_space-bank_code c (all-head c s h)))

trim_left-bank_code : (s : Text) → all is_bank_code_rune s ≡ true → trim_left s ≡ s
unfolding trim_left
trim_left-bank_code [] h = refl
trim_left-bank_code (c ∷ s) h = rw (is_space-bank_code c (all-head c s h))

trim_space-bank_code : (s : Text) → all is_bank_code_rune s ≡ true → trim_space s ≡ s
unfolding trim_space
trim_space-bank_code s h = rw (trim_left-bank_code s h) (trim_right-bank_code s h)

-- The runes of a bank code are single bytes.
pub byte_len-bank_code : (s : Text) → all is_bank_code_rune s ≡ true → byte_len s ≡ length s
unfolding byte_len is_bank_code_rune
byte_len-bank_code [] h = refl
byte_len-bank_code (c ∷ s) h = ground (arith, byte_len-bank_code s)

-- What the checks of a canonical text let through.
pub record IsCanonical (code : Text) : Type 0 where
  pub long_enough : 3 ≤ length code
  pub short_enough : length code ≤ 10
  pub alphanumeric : all is_bank_code_rune code ≡ true

check_bank_code-IsCanonical : (s c : Text) → check_bank_code s ≡ ok c → IsCanonical c × (s ≡ c)
unfolding check_bank_code
check_bank_code-IsCanonical s c h = elim (Bool-cases (all is_bank_code_rune s)) [
  | inl good ↦ ground (arith, byte_len-bank_code s good)
  | inr bad ↦ ground arith
]

check_bank_code-ok : (s : Text) → IsCanonical s → check_bank_code s ≡ ok s
unfolding check_bank_code
check_bank_code-ok s h = ground (arith, byte_len-bank_code s h.alphanumeric)

-- An accepted code has 3 to 10 runes, each an ASCII capital or digit.
pub canonical_bank_code-IsCanonical :
    (value : Text) {code : Text} → canonical_bank_code value ≡ ok code → IsCanonical code
unfolding canonical_bank_code
canonical_bank_code-IsCanonical value h = (check_bank_code-IsCanonical _ _ h).0

-- A canonical code is its own canonical form.
canonical_bank_code-IsCanonical_self :
    (code : Text) → IsCanonical code → canonical_bank_code code ≡ ok code
unfolding canonical_bank_code
canonical_bank_code-IsCanonical_self code h =
    rw (trim_space-bank_code code h.alphanumeric, to_upper-bank_code code h.alphanumeric)
      (check_bank_code-ok code h)
