-- ===== src/Domain/Disbursement/Fee.antt =====
-- internal/domain/disbursement.go, CalculateAdminFee: the fee of every amount.
use disbursment_api.Base.{◌≡◌, ◌↔◌, ◌⊎◌, arith}
use disbursment_api.Base.Int.{ℤ, pos, ◌≤ℤ◌}
use disbursment_api.Failure.{ok}
use disbursment_api.Domain.Disbursement.{
  calculate_admin_fee, minimum_amount, maximum_amount, lower_tier_admin_fee, upper_tier_admin_fee,
}

-- The tier that an amount falls in, and its fee.
abbrev pub HasFee : ℤ → ℤ → Type 0
HasFee amount fee =
    ((amount ≤ℤ pos 4999999) × (fee ≡ lower_tier_admin_fee))
    ⊎ ((pos 5000000 ≤ℤ amount) × (fee ≡ upper_tier_admin_fee))

-- A fee is computed exactly for the amounts from 10,000 to 100,000,000,000, and it is 2,500 for an
-- amount below 5,000,000 and 5,000 for any other.
pub calculate_admin_fee-ok_iff :
    (amount fee : ℤ)
    → (calculate_admin_fee amount ≡ ok fee)
      ↔ ((minimum_amount ≤ℤ amount) × (amount ≤ℤ maximum_amount) × HasFee amount fee)
unfolding calculate_admin_fee
calculate_admin_fee-ok_iff amount fee = (λ h. ground arith, λ h. ground arith)
