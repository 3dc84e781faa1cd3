-- ===== src/Repository/Disbursements/Rows.antt =====
-- internal/repository/postgres/disbursement.go: rows and domain values, and the constraints.
use disbursment_api.Base.{◌≡◌, refl, [], ◌∷◌, arith}
use disbursment_api.Base.Text.{Text}
use disbursment_api.Domain.Disbursement.{Disbursement}
use disbursment_api.Repository.Disbursements.{null_if_empty, empty_if_null, to_row, from_row}

empty_if_null-null_if_empty : (s : Text) → empty_if_null (null_if_empty s) ≡ s
empty_if_null-null_if_empty [] = refl
empty_if_null-null_if_empty (c ∷ s) = refl

-- What is inserted is read back unchanged.
from_row-to_row : (d : Disbursement) → from_row (to_row d) ≡ d
unfolding from_row to_row
from_row-to_row d =
    ground (arith, empty_if_null-null_if_empty d.note, empty_if_null-null_if_empty d.decision_note)
