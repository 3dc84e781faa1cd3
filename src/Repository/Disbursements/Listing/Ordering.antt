-- ===== src/Repository/Disbursements/Listing/Ordering.antt =====
-- internal/repository/postgres/disbursement.go, `List`: what the ORDER BY promises. The collation of the
-- database is a parameter.
use disbursment_api.Base.{ℕ, Bool, List, keep, leb, if◌then◌else◌}
use disbursment_api.Base.Int.{leb_ℤ}
use disbursment_api.Base.Text.{Text}
use disbursment_api.Domain.Disbursement.{
  DisbursementStatus, pending, approved, rejected, other_status,
}
use disbursment_api.Repository.Tables.{DbDisbursement, Tables}
use disbursment_api.Repository.Disbursements.Listing.{
  DisbursementFilter, Server, SortColumn, by_created_at, by_amount, by_recipient_name, by_status,
  sort_column, is_ascending, is_listed,
}

-- The order of the enum's values in the schema.
abbrev status_rank : DisbursementStatus → ℕ
status_rank pending = 0
status_rank approved = 1
status_rank rejected = 2
status_rank (other_status s) = 3

-- Whether the key of a row is at or before that of another.
abbrev key_before : (Text → Text → Bool) → SortColumn → DbDisbursement → DbDisbursement → Bool
key_before collates by_created_at a b = leb a.created_at b.created_at
key_before collates by_amount a b = leb_ℤ a.amount b.amount
key_before collates by_recipient_name a b = collates a.recipient_name b.recipient_name
key_before collates by_status a b = leb (status_rank a.status) (status_rank b.status)

-- `ORDER BY <column> <order>`. Rows with equal keys are each before the other.
unfoldable pub goes_before :
    (Text → Text → Bool) → DisbursementFilter → DbDisbursement → DbDisbursement → Bool
goes_before collates filter a b =
    if is_ascending filter.sort_order
    then key_before collates (sort_column filter.sort_by) a b
    else key_before collates (sort_column filter.sort_by) b a

-- The rows that the WHERE clause selects.
abbrev pub matching_rows : Server → DisbursementFilter → Tables → List DbDisbursement
matching_rows server filter t = keep (is_listed server filter) t.disbursements

pub DbDisbursement-set : IsSet DbDisbursement
DbDisbursement-set = hlevel
