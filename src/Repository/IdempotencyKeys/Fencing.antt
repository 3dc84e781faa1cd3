-- ===== src/Repository/IdempotencyKeys/Fencing.antt =====
-- internal/repository/postgres/idempotency.go: what any interleaving of statements on the keys does to
-- one claim. A statement is atomic in the database, so an interleaving is a sequence of statements.
use disbursment_api.Base.{
  ℕ, ◌≤◌, ◌<◌, ◌≡◌, refl, ◌≢◌, false, not, some, List, [], ◌∷◌, find, All, arith,
}
use disbursment_api.Domain.Idempotency.{
  completed, IdempotencyScope, IdempotencyClaimRequest, IdempotencyCompletion,
}
use disbursment_api.Repository.Tables.{StoredClaim, Tables}
use disbursment_api.Repository.IdempotencyKeys.{
  at_scope, new_claim, insert_claim_statement, reclaimable, reclaim_row, reclaim_statement, owned,
  complete_row, complete_statement, release_statement,
}
use disbursment_api.Repository.IdempotencyKeys.Claims.{find-update_where, find-append, find-keep}

-- One statement of some session on the table of keys.
pub data KeyStatement : Type 0 where
  insert_claim reclaim : IdempotencyClaimRequest → KeyStatement
  complete : IdempotencyCompletion → KeyStatement
  release : IdempotencyScope → ℕ → KeyStatement

unfoldable pub run_statement : KeyStatement → Tables → Tables
run_statement (insert_claim request) t = (insert_claim_statement request t).1
run_statement (reclaim request) t = (reclaim_statement request t).1
run_statement (complete completion) t = (complete_statement completion t).1
run_statement (release scope claim_id) t = (release_statement scope claim_id t).1

unfoldable pub run_statements : List KeyStatement → Tables → Tables
run_statements [] t = t
run_statements (s ∷ ss) t = run_statements ss (run_statement s t)

-- A statement that reads the time before an expiry; only reclaiming reads it.
abbrev pub IsBefore : ℕ → KeyStatement → Type 0
IsBefore expiry (reclaim request) = request.now < expiry
IsBefore expiry _ = Unit

-- The table holds this row for its scope.
abbrev pub Stores : StoredClaim → Tables → Type 0
Stores row t = find (at_scope row.scope) t.idempotency_keys ≡ some row

module _ (row : StoredClaim) (t : Tables) (stored : Stores row t) where
  insert_claim-Stores :
      (request : IdempotencyClaimRequest) → Stores row (insert_claim_statement request t).1
  unfolding insert_claim_statement
  insert_claim-Stores request =
      ground (arith, find-append row.scope t.idempotency_keys (new_claim request), stored)

  -- What finds the row as none of its own leaves it.
  reclaim-Stores :
      (request : IdempotencyClaimRequest)
      → reclaimable request row ≡ false
      → Stores row (reclaim_statement request t).1
  unfolding reclaim_statement
  reclaim-Stores request kept = ground (
    arith,
    find-update_where row.scope (reclaimable request) (reclaim_row request) (λ r. refl)
        t.idempotency_keys,
    kept,
  )

  complete-Stores :
      (completion : IdempotencyCompletion)
      → owned completion.scope completion.claim_id row ≡ false
      → Stores row (complete_statement completion t).1
  unfolding complete_statement
  complete-Stores completion foreign = ground (
    arith,
    find-update_where row.scope (owned completion.scope completion.claim_id)
        (complete_row completion) (λ r. refl) t.idempotency_keys,
    foreign,
  )

  release-Stores :
      (scope : IdempotencyScope) (claim_id : ℕ)
      → owned scope claim_id row ≡ false
      → Stores row (release_statement scope claim_id t).1
  unfolding release_statement
  release-Stores scope claim_id foreign =
      find-keep row.scope (λ r. not (owned scope claim_id r)) t.idempotency_keys row stored
        (rw foreign)

-- A statement whose WHERE clause does not select the row.
abbrev Misses : StoredClaim → KeyStatement → Type 0
Misses row (insert_claim request) = Unit
Misses row (reclaim request) = reclaimable request row ≡ false
Misses row (complete completion) = owned completion.scope completion.claim_id row ≡ false
Misses row (release scope claim_id) = owned scope claim_id row ≡ false

run_statement-Stores :
    (row : StoredClaim) (t : Tables) (s : KeyStatement)
    → Stores row t
    → Misses row s
    → Stores row (run_statement s t)
unfolding run_statement
run_statement-Stores row t (insert_claim request) stored m =
    insert_claim-Stores row t stored request
run_statement-Stores row t (reclaim request) stored m = reclaim-Stores row t stored request m
run_statement-Stores row t (complete completion) stored m =
    complete-Stores row t stored completion m
run_statement-Stores row t (release scope claim_id) stored m =
    release-Stores row t stored scope claim_id m

run_statements-Misses :
    (row : StoredClaim) (t : Tables) (ss : List KeyStatement)
    → Stores row t
    → All (Misses row) ss
    → Stores row (run_statements ss t)
unfolding run_statements
run_statements-Misses row t [] stored m = stored
run_statements-Misses row t (s ∷ ss) stored m =
    run_statements-Misses row (run_statement s t) ss (run_statement-Stores row t s stored m.0) m.1

All-map :
    {P Q : KeyStatement → Type 0} (ss : List KeyStatement)
    → ((s : KeyStatement) → P s → Q s)
    → All P ss
    → All Q ss
All-map [] f h = tt
All-map (s ∷ ss) f h = (f s h.0, All-map ss f h.1)

completed-Misses :
    (row : StoredClaim) (s : KeyStatement)
    → row.state ≡ completed
    → IsBefore row.expires_at s
    → Misses row s
unfolding owned reclaimable
completed-Misses row (insert_claim request) done early = tt
completed-Misses row (reclaim request) done early = ground arith
completed-Misses row (complete completion) done early = ground arith
completed-Misses row (release scope claim_id) done early = ground arith

-- A statement of another claimant, which reads the time before the end of the lease.
abbrev pub IsForeign : StoredClaim → KeyStatement → Type 0
IsForeign row (insert_claim request) = Unit
IsForeign row (reclaim request) = request.now < row.lease_until
IsForeign row (complete completion) = completion.claim_id ≢ row.claim_id
IsForeign row (release scope claim_id) = claim_id ≢ row.claim_id

foreign-Misses :
    (row : StoredClaim) (s : KeyStatement)
    → row.lease_until ≤ row.expires_at
    → IsForeign row s
    → Misses row s
unfolding owned reclaimable
foreign-Misses row (insert_claim request) lease foreign = tt
foreign-Misses row (reclaim request) lease foreign = ground arith
foreign-Misses row (complete completion) lease foreign = ground arith
foreign-Misses row (release scope claim_id) lease foreign = ground arith

-- A completed claim and its response stay in the table through every sequence of statements on keys,
-- of any sessions, whose reclaims happen before its expiry.
pub run_statements-Stores :
    (row : StoredClaim) (t : Tables) (ss : List KeyStatement)
    → Stores row t
    → row.state ≡ completed
    → All (IsBefore row.expires_at) ss
    → Stores row (run_statements ss t)
run_statements-Stores row t ss stored done early =
    run_statements-Misses row t ss stored (All-map ss (λ s. completed-Misses row s done) early)

-- A claim stays as it is through every sequence of statements on keys, of any sessions, in which no
-- other claimant's reclaim happens once its lease has ended, and its own claim id is neither completed
-- nor released. The lease ends no later than the claim expires.
pub run_statements-Stores_leased :
    (row : StoredClaim) (t : Tables) (ss : List KeyStatement)
    → Stores row t
    → row.lease_until ≤ row.expires_at
    → All (IsForeign row) ss
    → Stores row (run_statements ss t)
run_statements-Stores_leased row t ss stored lease foreign =
    run_statements-Misses row t ss stored (All-map ss (λ s. foreign-Misses row s lease) foreign)
