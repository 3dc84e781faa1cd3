-- ===== src/Repository/IdempotencyKeys/Ownership.antt =====
-- internal/repository/postgres/idempotency.go: a claim id is a fence. Who has lost a claim can neither
-- complete nor release it, and a reclaim hands the row to one new claim.
use disbursment_api.Base.{
  ℕ, ◌≡◌, refl, ◌∙◌, ◌≢◌, Bool, true, false, not, some, List, [], ◌∷◌, find, count, keep, arith,
}
use disbursment_api.Domain.Idempotency.{
  IdempotencyScope, IdempotencyClaimRequest, IdempotencyCompletion,
}
use disbursment_api.Repository.Tables.{StoredClaim, Tables}
use disbursment_api.Repository.World.{returned}
use disbursment_api.Repository.IdempotencyKeys.{
  at_scope, reclaimable, owned, complete_statement, release_statement,
}
use disbursment_api.Repository.IdempotencyKeys.Claims.{HasUniqueScopes, count_unique}

keep-untouched :
    (p : StoredClaim → Bool) (rows : List StoredClaim)
    → count p rows ≡ 0
    → keep (λ row. not (p row)) rows ≡ rows
keep-untouched p [] h = refl
keep-untouched p (row ∷ rows) h = ground (arith, keep-untouched p rows)

owned-at_scope :
    (scope : IdempotencyScope) (claim_id : ℕ) (row : StoredClaim)
    → owned scope claim_id row ≡ true
    → at_scope scope row ≡ true
unfolding owned
owned-at_scope scope claim_id row h = ground arith

owned-claim :
    (scope : IdempotencyScope) (claim_id : ℕ) (row : StoredClaim)
    → row.claim_id ≢ claim_id
    → owned scope claim_id row ≡ false
unfolding owned
owned-claim scope claim_id row other = ground arith

reclaimable-at_scope :
    (request : IdempotencyClaimRequest) (row : StoredClaim)
    → reclaimable request row ≡ true
    → at_scope request.scope row ≡ true
unfolding reclaimable
reclaimable-at_scope request row h = ground arith

module _ (t : Tables) (unique : HasUniqueScopes t.idempotency_keys) (scope : IdempotencyScope)
    (row : StoredClaim) (stored : find (at_scope scope) t.idempotency_keys ≡ some row)
    (claim_id : ℕ) (stale : row.claim_id ≢ claim_id) where
  count-stale : count (owned scope claim_id) t.idempotency_keys ≡ 0
  count-stale =
      count_unique scope (owned scope claim_id) (owned-at_scope scope claim_id) t.idempotency_keys
        unique
      ∙ (rw (stored, owned-claim scope claim_id row stale))

  -- The completion of a claim by who does not own it changes no row: the row of the scope has another
  -- claim id.
  pub complete_statement-stale :
      (completion : IdempotencyCompletion)
      → completion.scope ≡ scope
      → completion.claim_id ≡ claim_id
      → complete_statement completion t ≡ (returned 0, t)
  unfolding complete_statement
  complete_statement-stale completion s c = rw (s, c, count-stale) refl

  -- The release of a claim by who does not own it changes no row.
  release_statement-stale : release_statement scope claim_id t ≡ (returned 0, t)
  unfolding release_statement
  release_statement-stale =
      rw (count-stale, keep-untouched (owned scope claim_id) t.idempotency_keys count-stale)
