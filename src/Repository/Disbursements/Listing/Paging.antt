-- ===== src/Repository/Disbursements/Listing/Paging.antt =====
-- internal/repository/postgres/disbursement.go, `List`: the pages together.
use disbursment_api.Base.{
  ℕ, Bool, zero, suc, ◌+◌, ◌*◌, ◌≤◌, ◌<◌, ◌≡◌, refl, ◌∙◌, ap, false, List, [], ◌∷◌, ◌++◌, take,
  drop, arith,
}
use native.Mathlib.Nat.{le-mul_of_pos_right}
use disbursment_api.Base.Int.{
  ℤ, pos, negsuc, half_range, int64, int64-pos, ◌-ℤ◌, ◌*ℤ◌, pos_part, ltb_ℤ,
}
use disbursment_api.Base.Ordered.{IsArranged, HasNoTies, IsArranged-same}
use disbursment_api.Base.Text.{Text}
use disbursment_api.Repository.Tables.{DbDisbursement, Tables}
use disbursment_api.Repository.World.{Sql, returned, failed}
use disbursment_api.Repository.Disbursements.Listing.{
  DisbursementFilter, Server, bad_status, offset_of, listed_rows, list_statement, limit_or_default,
  page_or_default, is_listed, SortColumn,
}
use disbursment_api.Repository.Disbursements.Listing.Ordering.{
  goes_before, matching_rows, DbDisbursement-set,
}

abbrev rows_or_none : Sql (List DbDisbursement) → List DbDisbursement
rows_or_none (returned rows) = rows
rows_or_none (failed cause) = []

-- The order in which a query returns rows, which may be another one for each query.
abbrev pub Arrangement : Type 0
Arrangement = SortColumn → Bool → List DbDisbursement → List DbDisbursement

abbrev pub arranging : Server → Arrangement → Server
arranging server arrangement = record server { arrange = arrangement }

-- What the first pages of a filter return, one after the other; each is a query of its own.
unfoldable pub first_pages :
    Server → (ℕ → Arrangement) → DisbursementFilter → Tables → ℕ → List DbDisbursement
first_pages server arrangements filter t zero = []
first_pages server arrangements filter t (suc n) =
    let page =
      list_statement (arranging server (arrangements n)) (record filter { page = pos (suc n) }) t in
    first_pages server arrangements filter t n ++ rows_or_none page.0

-- The rows on a page.
abbrev pub page_size : DisbursementFilter → ℕ
page_size filter = pos_part (limit_or_default filter.limit)

take-add {ℓ} :
    {A : Type ℓ} (a b : ℕ) (xs : List A) → take a xs ++ take b (drop a xs) ≡ take (a + b) xs
take-add zero b xs = let sum : b ≡ 0 + b = omega arith in ap (λ n. take n xs) sum
take-add (suc a) zero [] = let sum : suc a ≡ suc a + 0 = omega arith in ap (λ n. take n []) sum
take-add (suc a) (suc b) [] =
    let sum : suc (suc (a + b)) ≡ suc a + suc b = omega arith in ap (λ n. take n []) sum
take-add (suc a) b (x ∷ xs) =
    let sum : suc (a + b) ≡ suc a + b = omega arith in
    ap (x ∷◌) (take-add a b xs) ∙ ap (λ n. take n (x ∷ xs)) sum

limit_or_default-pos :
    (limit : ℤ) → limit_or_default limit ≡ pos (pos_part (limit_or_default limit))
limit_or_default-pos (pos n) = ground arith
limit_or_default-pos (negsuc n) = ground arith

limit_or_default-positive : (limit : ℤ) → 1 ≤ pos_part (limit_or_default limit)
limit_or_default-positive (pos n) = ground arith
limit_or_default-positive (negsuc n) = ground arith

pred-pos : (n : ℕ) → pos (suc n) -ℤ pos 1 ≡ pos n
unfolding ◌-ℤ◌
pred-pos n = ground arith

mul-pos : (a b : ℕ) → pos a *ℤ pos b ≡ pos (a * b)
unfolding ◌*ℤ◌
mul-pos a b = ground arith

offset_of-exact :
    (n limit : ℕ)
    → n * limit < half_range
    → n < half_range
    → offset_of (pos (suc n)) (pos limit) ≡ pos (n * limit)
unfolding offset_of
offset_of-exact n limit small n_small =
    ap (λ i. int64 (int64 i *ℤ pos limit)) (pred-pos n)
    ∙ ap (λ i. int64 (i *ℤ pos limit)) (int64-pos n n_small)
    ∙ ap int64 (mul-pos n limit)
    ∙ int64-pos (n * limit) small

factor-bounded : (n limit : ℕ) → 1 ≤ limit → n * limit < half_range → n < half_range
factor-bounded n limit h small = let below : n ≤ n * limit = le-mul_of_pos_right n h in omega arith

page_or_default-pos : (n : ℕ) → page_or_default (pos (suc n)) ≡ pos (suc n)
page_or_default-pos n = ground arith

offset_of-page :
    (limit : ℤ) (n : ℕ)
    → n * pos_part (limit_or_default limit) < half_range
    → offset_of (page_or_default (pos (suc n))) (limit_or_default limit)
      ≡ pos (n * pos_part (limit_or_default limit))
offset_of-page limit n small =
    let size = pos_part (limit_or_default limit) in
    let n_small = factor-bounded n size (limit_or_default-positive limit) small in
    ap (λ page. offset_of page (limit_or_default limit)) (page_or_default-pos n)
    ∙ ap (offset_of (pos (suc n))) (limit_or_default-pos limit)
    ∙ offset_of-exact n size small n_small

pos-nonnegative : (n : ℕ) → ltb_ℤ (pos n) (pos 0) ≡ false
pos-nonnegative n = ground arith

page-rows :
    (server : Server) (filter : DisbursementFilter) (t : Tables) (n : ℕ)
    → bad_status filter.status ≡ false
    → n * page_size filter < half_range
    → rows_or_none (list_statement server (record filter { page = pos (suc n) }) t).0
      ≡ take (page_size filter) (drop (n * page_size filter) (listed_rows server filter t))
unfolding list_statement listed_rows is_listed
page-rows server filter t n known small =
    rw known
      (rw (offset_of-page filter.limit n small) (rw (pos-nonnegative (n * page_size filter)) refl))

mul-suc : (n p : ℕ) → n * p + p ≡ suc n * p
mul-suc n p = omega arith

-- Let n pages hold fewer than 2 ^ 63 rows, and the status of the filter, if it has one, be one of the
-- enum's. If each query returns the rows of the filter in the order of its ORDER BY, and no two of these
-- rows have equal keys, then the first n pages, one after the other, are the first rows of the filter in
-- that order, n times the page size of them, so that no page skips a row or repeats one. A limit outside 1
-- to 100 counts as 20. Where keys are equal SQL promises no order, and pages may skip and repeat rows.
pub first_pages-prefix :
    (collates : Text → Text → Bool) (server : Server) (arrangements : ℕ → Arrangement)
    (filter : DisbursementFilter) (t : Tables) (rows : List DbDisbursement) (n : ℕ)
    → IsArranged (goes_before collates filter) (matching_rows server filter t) rows
    → ((page : ℕ)
        → IsArranged
            (goes_before collates filter)
            (matching_rows server filter t)
            (listed_rows (arranging server (arrangements page)) filter t))
    → HasNoTies (goes_before collates filter) (matching_rows server filter t)
    → bad_status filter.status ≡ false
    → n * page_size filter < half_range
    → first_pages server arrangements filter t n ≡ take (n * page_size filter) rows
unfolding first_pages
first_pages-prefix collates server arrangements filter t rows zero sorted sorts apart known small =
    let none_yet : 0 ≡ 0 * page_size filter = omega arith in ap (λ n. take n rows) none_yet
first_pages-prefix collates server arrangements filter t rows (suc n) sorted sorts apart known
      small =
    let size = page_size filter in
    let this = arranging server (arrangements n) in
    let page = rows_or_none (list_statement this (record filter { page = pos (suc n) }) t).0 in
    let same : listed_rows this filter t ≡ rows =
      IsArranged-same (goes_before collates filter) DbDisbursement-set
        (matching_rows server filter t) (listed_rows this filter t) rows apart (sorts n) sorted in
    let fewer : n * size < half_range = let grown = mul-suc n size in omega arith in
    ap (◌++ page) (
      first_pages-prefix collates server arrangements filter t rows n sorted sorts apart known
        fewer)
    ∙ ap (take (n * size) rows ++◌)
        (page-rows this filter t n known fewer ∙ ap (λ all. take size (drop (n * size) all)) same)
    ∙ take-add (n * size) size rows
    ∙ ap (λ k. take k rows) (mul-suc n size)
