-- ===== src/Domain/Disbursement/Dates.antt =====
-- internal/domain/disbursement.go, NewUTCDateRange: the half-open interval of whole UTC days.
use disbursment_api.Base.{ℕ, ◌/◌, ◌≤◌, ◌<◌, ◌≡◌, ◌↔◌, arith}
use disbursment_api.Failure.{ok, is_ok}
use disbursment_api.Base.{true}
use disbursment_api.Domain.Disbursement.{DateRange, day, new_utc_date_range}

-- The number of a time's UTC day.
abbrev pub day_of : ℕ → ℕ
day_of t = t / day

-- A time lies in the interval exactly if its day is between the two days, both included.
pub new_utc_date_range-contains_iff :
    (from to t : ℕ) {range : DateRange}
    → new_utc_date_range from to ≡ ok range
    → ((range.from_inclusive ≤ t) × (t < range.to_exclusive))
      ↔ ((day_of from ≤ day_of t) × (day_of t ≤ day_of to))
unfolding new_utc_date_range
new_utc_date_range-contains_iff from to t h = (λ c. ground arith, λ c. ground arith)

-- A range is refused exactly if the first day is after the last.
new_utc_date_range-ok_iff :
    (from to : ℕ) → (is_ok (new_utc_date_range from to) ≡ true) ↔ (day_of from ≤ day_of to)
unfolding new_utc_date_range
new_utc_date_range-ok_iff from to = (λ h. ground arith, λ h. ground arith)
