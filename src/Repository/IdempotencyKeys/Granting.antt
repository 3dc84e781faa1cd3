-- ===== src/Repository/IdempotencyKeys/Granting.antt =====
-- internal/repository/postgres/idempotency.go while the database works and no other session commits: a
-- fresh key is granted, its holder is known and completes it, and a completed key is replayed.
use disbursment_api.Base.{
  ℕ, ◌≤◌, ◌≡◌, refl, sym, ◌∙◌, ap, Bool, true, false, not, ◌||◌, none, some, [], ◌∷◌, ◌++◌, length,
  find, ◌==◌, is_some, arith,
}
use disbursment_api.Base.Appending.{find-append_new, count-append_new, update_where-append_new}
use disbursment_api.Base.Text.{Text, text_eq-same}
use disbursment_api.Failure.{no_rows}
use disbursment_api.Domain.Idempotency.{
  IdempotencyScope, IdempotencyClaimRequest, IdempotencyClaimResult, IdempotencyCompletion,
  scope_valid, request_valid, completion_valid,
}
use disbursment_api.Repository.Disbursements.{user_exists, has_id}
use disbursment_api.Repository.IdempotencyKeys.{
  same_scope, at_scope, new_claim, insert_claim_statement, select_claim_statement, owned, as_stored,
  complete_row, complete_statement, classify_claim, acquired, acquire_existing, acquire,
  verify_ownership, complete,
}
use disbursment_api.Repository.Tables.{StoredClaim, Tables}
use disbursment_api.Repository.World.{returned, failed, Env}
use disbursment_api.Repository.World.Quiet.{
  Quiet, Yields, pure-Yields, bind-Yields, exec_tx-Yields, inspect_pool-Yields,
  within_transaction-Yields,
}

pub same_scope-same : (scope : IdempotencyScope) → same_scope scope scope ≡ true
unfolding same_scope
same_scope-same scope = ground (arith, text_eq-same scope.endpoint)

pub same_number : (n : ℕ) → (n == n) ≡ true
same_number n = ground arith

-- The tables with one more claim.
abbrev pub with_claim : StoredClaim → Tables → Tables
with_claim row t = record t { idempotency_keys = t.idempotency_keys ++ row ∷ [] }

owned-at_scope :
    (scope : IdempotencyScope) (claim_id : ℕ) (row : StoredClaim)
    → owned scope claim_id row ≡ true
    → at_scope scope row ≡ true
unfolding owned
owned-at_scope scope claim_id row h = ground (arith, h)

-- What the schema asks of a claim that is inserted.
pub record Fits (request : IdempotencyClaimRequest) (t : Tables) : Type 0 where
  pub valid : request_valid request ≡ true
  pub short : length request.scope.endpoint ≤ 128
  pub known : user_exists request.scope.user_id t.users ≡ true

module _ {env : Env} (quiet : Quiet env) (json_valid : Text → Bool) where
  insert_claim-granted :
      (request : IdempotencyClaimRequest) (t : Tables)
      → Fits request t
      → find (at_scope request.scope) t.idempotency_keys ≡ none
      → insert_claim_statement request t
        ≡ (returned request.claim_id, with_claim (new_claim request) t)
  unfolding insert_claim_statement request_valid
  insert_claim-granted request t fits free =
      let valid = fits.valid in let short = fits.short in let known = fits.known in ground arith

  pub acquire-granted :
      (request : IdempotencyClaimRequest) (c v : Tables)
      → Fits request c
      → find (at_scope request.scope) c.idempotency_keys ≡ none
      → Yields env c v
          (acquire json_valid request)
          (acquired request.claim_id)
          (with_claim (new_claim request) c)
          (with_claim (new_claim request) c)
  unfolding acquire
  acquire-granted request c v fits free = rw fits.valid (
      inspect_pool-Yields quiet _ _ c v _ _ _ _ _ (insert_claim-granted request c fits free)
        pure-Yields)

  insert_claim-taken :
      (request : IdempotencyClaimRequest) (t : Tables) (row : StoredClaim)
      → Fits request t
      → find (at_scope request.scope) t.idempotency_keys ≡ some row
      → insert_claim_statement request t ≡ (failed no_rows, t)
  unfolding insert_claim_statement request_valid
  insert_claim-taken request t row fits there =
      let valid = fits.valid in let short = fits.short in ground arith

  -- A key that the stored claim decides about.
  pub acquire-decided :
      (request : IdempotencyClaimRequest) (c v : Tables) (row : StoredClaim)
      (result : IdempotencyClaimResult)
      → Fits request c
      → find (at_scope request.scope) c.idempotency_keys ≡ some row
      → classify_claim json_valid row request ≡ some result
      → Yields env c v (acquire json_valid request) result c c
  unfolding acquire acquire_existing select_claim_statement
  acquire-decided request c v row result fits there decided = rw fits.valid (
      inspect_pool-Yields quiet _ _ c v _ _ _ _ _ (insert_claim-taken request c row fits there) (
        within_transaction-Yields quiet (
          bind-Yields _ (exec_tx-Yields quiet _ c c row c (rw there refl))
            (rw decided pure-Yields))))

  -- The holder of a claim that has just been granted.
  module _ (request : IdempotencyClaimRequest) (t : Tables) (fits : Fits request t)
      (free : find (at_scope request.scope) t.idempotency_keys ≡ none) where
    found :
        find (at_scope request.scope) (t.idempotency_keys ++ new_claim request ∷ [])
        ≡ some (new_claim request)
    unfolding new_claim
    found =
        find-append_new (at_scope request.scope) t.idempotency_keys (new_claim request) free
          (same_scope-same request.scope)

    pub verify_ownership-granted :
        (c v : Tables)
        → v.idempotency_keys ≡ t.idempotency_keys ++ new_claim request ∷ []
        → Yields env c v (verify_ownership request.scope request.claim_id) tt c v
    unfolding verify_ownership select_claim_statement new_claim request_valid scope_valid
    verify_ownership-granted c v keys =
        let valid = fits.valid in
        let guard : (not (scope_valid request.scope) || request.claim_id == 0) ≡ false =
          ground arith in
        rw guard (
          bind-Yields _
            (exec_tx-Yields quiet (select_claim_statement request.scope) c v (new_claim request) v
              (rw keys (rw found refl)))
            (rw (same_number request.claim_id) pure-Yields))

    implied :
        (completion : IdempotencyCompletion)
        → completion.scope ≡ request.scope
        → (row : StoredClaim) → owned completion.scope completion.claim_id row ≡ true
        → at_scope request.scope row ≡ true
    implied completion same row h =
        ap (λ scope. at_scope scope row) (sym same)
        ∙ owned-at_scope completion.scope completion.claim_id row h

    owns :
        (completion : IdempotencyCompletion)
        → completion.scope ≡ request.scope
        → completion.claim_id ≡ request.claim_id
        → owned completion.scope completion.claim_id (new_claim request) ≡ true
    unfolding owned new_claim
    owns completion same same_id =
        rw same
          (rw same_id (rw (same_scope-same request.scope) (rw (same_number request.claim_id) refl)))

    pub complete-granted :
        (jsonb : Text → Text) (completion : IdempotencyCompletion) (c v : Tables)
        → v.idempotency_keys ≡ t.idempotency_keys ++ new_claim request ∷ []
        → completion.scope ≡ request.scope
        → completion.claim_id ≡ request.claim_id
        → completion_valid json_valid completion ≡ true
        → is_some (find (has_id completion.response.disbursement_id) v.disbursements) ≡ true
        → Yields env c v (complete jsonb json_valid completion) tt c (record v {
          idempotency_keys =
              t.idempotency_keys
              ++ complete_row (as_stored jsonb completion) (new_claim request) ∷ [];
        })
    unfolding complete complete_statement as_stored
    complete-granted jsonb completion c v keys at_its_scope with_its_id valid stored =
        let row = new_claim request in
        let q = owned completion.scope completion.claim_id in
        let once =
          count-append_new (at_scope request.scope) q (implied completion at_its_scope)
            t.idempotency_keys row free (owns completion at_its_scope with_its_id) in
        let changed =
          update_where-append_new (at_scope request.scope) q (implied completion at_its_scope)
            (complete_row (as_stored jsonb completion)) t.idempotency_keys row free
            (owns completion at_its_scope with_its_id) in
        rw valid (
          bind-Yields _
            (exec_tx-Yields quiet (complete_statement (as_stored jsonb completion)) c v 1 _
              (rw keys (rw once (rw stored (rw changed refl)))))
            pure-Yields)
