-- ===== src/Repository/IdempotencyKeys/Claims.antt =====
-- internal/repository/postgres/idempotency.go: the row of a scope under the statements, by the primary
-- key of idempotency_keys.
use disbursment_api.Base.{
  ◌≡◌, refl, ap, ◌↔◌, Bool, true, Option, none, some, List, [], ◌∷◌, ◌++◌, find, count, keep,
  update_where, arith, Bool-cases, inl, inr, if◌then◌else◌,
}
use disbursment_api.Base.Text.{Text, text_eq-same, text_eq_sound}
use disbursment_api.Domain.Idempotency.{IdempotencyScope, IdempotencyClaimRequest}
use disbursment_api.Repository.Tables.{StoredClaim}
use disbursment_api.Repository.IdempotencyKeys.{same_scope, at_scope, reclaimable, classify_claim}

-- The decision of the Go code to reclaim a row is the condition of the UPDATE that reclaims it.
pub classify_claim-none_iff :
    (json_valid : Text → Bool) (stored : StoredClaim) (request : IdempotencyClaimRequest)
    → at_scope request.scope stored ≡ true
    → (classify_claim json_valid stored request ≡ none) ↔ (reclaimable request stored ≡ true)
unfolding classify_claim reclaimable
classify_claim-none_iff json_valid stored request h = (λ e. ground arith, λ e. ground arith)

pub same_scope_refl : (a : IdempotencyScope) → same_scope a a ≡ true
unfolding same_scope
same_scope_refl a = ground (arith, text_eq-same a.endpoint)

pub same_scope_sound : (a b : IdempotencyScope) → same_scope a b ≡ true → a ≡ b
unfolding same_scope
same_scope_sound a b h = ground (arith, text_eq_sound a.endpoint b.endpoint)

-- The primary key of the table.
abbrev pub HasUniqueScopes : List StoredClaim → Type 0
HasUniqueScopes [] = Unit
HasUniqueScopes (row ∷ rows) = (find (at_scope row.scope) rows ≡ none) × HasUniqueScopes rows

-- Statements that touch rows of one scope only.
module _ (scope : IdempotencyScope) (p : StoredClaim → Bool)
    (within : (row : StoredClaim) → p row ≡ true → at_scope scope row ≡ true) where
  count-absent : (rows : List StoredClaim) → find (at_scope scope) rows ≡ none → count p rows ≡ 0
  count-absent [] h = refl
  count-absent (row ∷ rows) h = ground (arith, within row, count-absent rows)

  -- How many rows a statement changes: the row of the scope, if it passes.
  pub count_unique :
      (rows : List StoredClaim)
      → HasUniqueScopes rows
      → count p rows
        ≡ (elim (find (at_scope scope) rows) [ none ↦ 0 | some row ↦ if p row then 1 else 0 ])
  count_unique [] u = refl
  count_unique (row ∷ rows) u = elim (Bool-cases (at_scope scope row)) [
    | inl here ↦
        let gone : find (at_scope scope) rows ≡ none =
          rw (← same_scope_sound row.scope scope here) u.0 in
        ground (arith, count-absent rows gone)
    | inr elsewhere ↦ ground (arith, within row, count_unique rows u.1)
  ]

-- A row under an UPDATE.
abbrev pub updated :
    (StoredClaim → Bool) → (StoredClaim → StoredClaim) → Option StoredClaim → Option StoredClaim
updated p f none = none
updated p f (some row) = some (if p row then f row else row)

-- The row of any scope after an UPDATE that keeps the scopes.
pub find-update_where :
    (scope : IdempotencyScope) (p : StoredClaim → Bool) (f : StoredClaim → StoredClaim)
    → ((row : StoredClaim) → (f row).scope ≡ row.scope)
    → (rows : List StoredClaim)
    → find (at_scope scope) (update_where p f rows) ≡ updated p f (find (at_scope scope) rows)
find-update_where scope p f same [] = refl
find-update_where scope p f same (row ∷ rows) =
    let kept : at_scope scope (f row) ≡ at_scope scope row =
      ap (λ s. same_scope s scope) (same row) in
    elim (Bool-cases (p row)) [
      | inl changed ↦ ground (arith, find-update_where scope p f same rows)
      | inr left ↦ ground (arith, find-update_where scope p f same rows)
    ]

-- The row of any scope after a new row is added at the end.
pub find-append :
    (scope : IdempotencyScope) (rows : List StoredClaim) (row : StoredClaim)
    → find (at_scope scope) (rows ++ row ∷ []) ≡ (elim (find (at_scope scope) rows) [
      | none ↦ if at_scope scope row then some row else none
      | some old ↦ some old
    ])
find-append scope [] row = refl
find-append scope (r ∷ rows) row = ground (arith, find-append scope rows row)

-- The row of any scope that a DELETE keeps.
pub find-keep :
    (scope : IdempotencyScope) (p : StoredClaim → Bool) (rows : List StoredClaim)
    (row : StoredClaim)
    → find (at_scope scope) rows ≡ some row
    → p row ≡ true
    → find (at_scope scope) (keep p rows) ≡ some row
find-keep scope p [] row h k = cc
find-keep scope p (r ∷ rows) row h k = ground (arith, find-keep scope p rows row)
