-- ===== src/Domain/Disbursement/Pages.antt =====
-- internal/domain/disbursement.go, NewPagination: the pages cover the total.
use disbursment_api.Base.{zero, refl, ◌∙◌, ℕ, suc, ◌+◌, ◌-◌, ◌*◌, ◌/◌, ◌≤◌, ◌<◌, ◌≡◌, arith}
use disbursment_api.Base.Int.{int64, quot, ◌+ℤ◌, ◌-ℤ◌, ℤ, pos, pos_part, half_range, ◌≤ℤ◌}
use disbursment_api.Failure.{ok}
use disbursment_api.Domain.Disbursement.{Pagination, new_pagination, page_count}

div_up_bounds :
    (n l : ℕ) → 0 < l → 0 < n → (n ≤ (n + l - 1) / l * l) × ((n + l - 1) / l * l < n + l)
div_up_bounds n l h k = grind arith

page_count_lem :
    (n l : ℕ)
    → 0 < l
    → l ≤ 100
    → 0 < n
    → n + 100 ≤ half_range
    → page_count (pos n) (pos l) ≡ pos ((n + l - 1) / l)
unfolding page_count int64 quot ◌+ℤ◌ ◌-ℤ◌
page_count_lem n l h k p q = ground arith

-- What `NewPagination` promises of an accepted page request, for a total that the 64-bit sum of the
-- page count can hold.
pub record Covers (total : ℕ) (p : Pagination) : Type 0 where
  pub pages : ℕ
  pub counted : p.total_pages ≡ pos pages
  pub page_positive : pos 1 ≤ℤ p.page
  pub limit_positive : 0 < pos_part p.limit
  pub limit_bounded : pos_part p.limit ≤ 100
  pub enough : total ≤ pages * pos_part p.limit
  pub no_more : pages * pos_part p.limit < total + pos_part p.limit

-- An accepted request, with its defaults filled in.
record IsAccepted (total : ℕ) (p : Pagination) (l : ℕ) : Type 0 where
  limit_is : p.limit ≡ pos l
  limit_positive : 0 < l
  limit_bounded : l ≤ 100
  page_positive : pos 1 ≤ℤ p.page
  pages_are : p.total_pages ≡ page_count (pos total) (pos l)

new_pagination-IsAccepted :
    (page limit : ℤ) (total : ℕ) (p : Pagination)
    → new_pagination page limit (pos total) ≡ ok p
    → IsAccepted total p (pos_part p.limit)
unfolding new_pagination
new_pagination-IsAccepted page limit total p h = ground arith

page_count-zero : (l : ℕ) → page_count (pos 0) (pos l) ≡ pos 0
unfolding page_count
page_count-zero l = refl

-- The page count of an accepted request is the least that holds the whole total, its limit lies from
-- 1 to 100 and its page is at least 1.
pub new_pagination-Covers :
    (page limit : ℤ) (total : ℕ) {p : Pagination}
    → total + 100 ≤ half_range
    → new_pagination page limit (pos total) ≡ ok p
    → Covers total p
new_pagination-Covers page limit zero {p} bound h =
    let a = new_pagination-IsAccepted page limit 0 p h in
    record {
      pages = 0;
      counted = a.pages_are ∙ page_count-zero (pos_part p.limit);
      page_positive = a.page_positive;
      limit_positive = a.limit_positive;
      limit_bounded = a.limit_bounded;
      enough = omega arith;
      no_more = omega arith;
    }
new_pagination-Covers page limit (suc n) {p} bound h =
    let a = new_pagination-IsAccepted page limit (suc n) p h in
    let l = pos_part p.limit in
    let b = div_up_bounds (suc n) l a.limit_positive (omega arith) in
    record {
      pages = (suc n + l - 1) / l;
      counted =
          a.pages_are
          ∙ page_count_lem (suc n) l a.limit_positive a.limit_bounded (omega arith) bound;
      page_positive = a.page_positive;
      limit_positive = a.limit_positive;
      limit_bounded = a.limit_bounded;
      enough = b.0;
      no_more = b.1;
    }
