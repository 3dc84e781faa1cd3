-- ===== src/Repository/Disbursements/Listing.antt =====
-- internal/repository/postgres/disbursement.go, `List`: the query that is put together from a filter.
-- PostgreSQL's ILIKE and its ORDER BY are parameters.
pub mod Ordering
pub mod Paging
use disbursment_api.Base.{
  ℕ, Bool, true, false, not, ◌&&◌, ◌||◌, Option, none, some, List, [], ◌++◌, take, drop, count,
  keep, map, ltb, leb, ◌==◌, if◌then◌else◌, is_some,
}
use disbursment_api.Base.Int.{ℤ, pos, pos_part, ltb_ℤ, int64, ◌-ℤ◌, ◌*ℤ◌}
use disbursment_api.Base.Text.{Text, runes, is_empty, text_eq, trim_space, to_lower}
use disbursment_api.Failure.{postgres}
use disbursment_api.Domain.Disbursement.{
  DisbursementStatus, pending, approved, rejected, other_status, Disbursement, DateRange,
  default_page, default_limit, maximum_limit,
}
use disbursment_api.Repository.Tables.{DbDisbursement, Tables}
use disbursment_api.Repository.World.{Statement, returned, failed, Action, pure, exec_pool, ◌>>=◌}
use disbursment_api.Repository.Disbursements.{from_row, is_enum}

-- `DisbursementFilter`; an empty status is `none`.
pub record DisbursementFilter : Type 0 where
  pub page : ℤ
  pub limit : ℤ
  pub status : Option DisbursementStatus
  pub search : Text
  pub sort_by : Text
  pub sort_order : Text
  pub date_range : Option DateRange

pub data SortColumn : Type 0 where
  by_created_at by_amount by_recipient_name by_status : SortColumn

-- Whether a text matches a pattern, and the order in which the query of one request returns rows, for a
-- column, ascending or descending. SQL leaves the order of rows with equal keys open, so that the next
-- query may come with another one.
pub record Server : Type 0 where
  pub ilike : Text → Text → Bool
  pub arrange : SortColumn → Bool → List DbDisbursement → List DbDisbursement

abbrev pub same_status : DisbursementStatus → DisbursementStatus → Bool
same_status pending pending = true
same_status approved approved = true
same_status rejected rejected = true
same_status _ _ = false

abbrev pub status_matches : Option DisbursementStatus → DbDisbursement → Bool
status_matches none row = true
status_matches (some status) row = same_status status row.status

abbrev pub search_matches : Server → Text → DbDisbursement → Bool
search_matches server search row =
    is_empty search
    || server.ilike row.recipient_name (runes "%" ++ (search ++ runes "%"))
    || server.ilike row.account_number (runes "%" ++ (search ++ runes "%"))

abbrev pub date_matches : Option DateRange → DbDisbursement → Bool
date_matches none row = true
date_matches (some range) row =
    leb range.from_inclusive row.created_at && ltb row.created_at range.to_exclusive

-- The WHERE clause.
unfoldable pub is_listed : Server → DisbursementFilter → DbDisbursement → Bool
is_listed server filter row =
    not (is_some row.deleted_at)
    && (status_matches filter.status row
        && (search_matches server (trim_space filter.search) row
            && date_matches filter.date_range row))

unfoldable pub sort_column : Text → SortColumn
sort_column sort_by =
    if text_eq sort_by (runes "amount")
    then by_amount
    else if text_eq sort_by (runes "recipient_name")
    then by_recipient_name
    else if text_eq sort_by (runes "status")
    then by_status
    else by_created_at

abbrev pub is_ascending : Text → Bool
is_ascending sort_order = text_eq (to_lower sort_order) (runes "asc")

abbrev pub page_or_default : ℤ → ℤ
page_or_default page = if ltb_ℤ page (pos 1) then default_page else page

abbrev pub limit_or_default : ℤ → ℤ
limit_or_default limit =
    if ltb_ℤ limit (pos 1) || ltb_ℤ maximum_limit limit then default_limit else limit

-- `(page - 1) * limit`, in 64 bits.
unfoldable pub offset_of : ℤ → ℤ → ℤ
offset_of page limit = int64 (int64 (page -ℤ pos 1) *ℤ limit)

-- The status is cast to the enum before any row is read.
abbrev pub bad_status : Option DisbursementStatus → Bool
bad_status none = false
bad_status (some status) = not (is_enum status)

unfoldable pub count_statement : Server → DisbursementFilter → Statement ℕ
count_statement server filter t =
    if bad_status filter.status
    then (failed (postgres "22P02"), t)
    else (returned (count (is_listed server filter) t.disbursements), t)

unfoldable pub listed_rows : Server → DisbursementFilter → Tables → List DbDisbursement
listed_rows server filter t =
    server.arrange (sort_column filter.sort_by) (is_ascending filter.sort_order)
      (keep (is_listed server filter) t.disbursements)

-- A negative OFFSET is refused.
unfoldable pub list_statement : Server → DisbursementFilter → Statement (List DbDisbursement)
unfolding listed_rows offset_of
list_statement server filter t =
    let limit = limit_or_default filter.limit in
    let offset = offset_of (page_or_default filter.page) limit in
    if bad_status filter.status
    then (failed (postgres "22P02"), t)
    else if ltb_ℤ offset (pos 0)
    then (failed (postgres "2201X"), t)
    else (
      returned (take (pos_part limit) (drop (pos_part offset) (listed_rows server filter t))),
      t,
    )

-- `List`: the rows of a page, and how many there are in all.
unfoldable pub list : Server → DisbursementFilter → Action (List Disbursement × ℕ)
list server filter = exec_pool (count_statement server filter) >>= λ total.
    if total == 0
    then pure ([], 0)
    else (exec_pool (list_statement server filter) >>= λ rows. pure (map from_row rows, total))
