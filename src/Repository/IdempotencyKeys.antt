-- ===== src/Repository/IdempotencyKeys.antt =====
-- internal/repository/postgres/idempotency.go: the store of claims on idempotency keys. `json_valid` is
-- encoding/json's Valid.
pub mod Claims
pub mod Fencing
pub mod Ownership
pub mod Keeping
pub mod Granting
use Prim.Native.String.{String}
use disbursment_api.Base.{
  ℕ, ◌+◌, ◌-◌, ◌*◌, ◌/◌, Bool, true, false, not, ◌&&◌, ◌||◌, Option, none, some, List, [], ◌∷◌,
  ◌++◌, length, find, count, keep, update_where, ltb, leb, ◌==◌, if◌then◌else◌, is_some,
}
use disbursment_api.Base.Text.{Text, text_eq}
use disbursment_api.Failure.{
  Cause, no_rows, canceled, deadline_exceeded, postgres, plain, Failure, repository, raw, conflict,
  ownership_lost, constraint,
}
use disbursment_api.Domain.Idempotency.{
  IdempotencyState, in_progress, completed, is_in_progress, is_completed, claim_acquired,
  claim_replayed, claim_in_progress, claim_reused, IdempotencyScope, IdempotencyClaimRequest,
  ReplayResponse, IdempotencyClaimResult, IdempotencyCompletion, only_outcome, scope_valid,
  request_valid, completion_valid,
}
use disbursment_api.Repository.Errors.{classify}
use disbursment_api.Repository.Tables.{StoredClaim, Tables, User, DbDisbursement}
use disbursment_api.Repository.World.{
  Sql, returned, failed, Statement, Action, pure, raise, exec_tx, exec_pool, inspect_tx,
  inspect_pool, within_transaction, ◌>>=◌,
}
use disbursment_api.Repository.Disbursements.{user_exists, has_id}

-- `user_id = … AND endpoint = … AND key = …`.
unfoldable pub same_scope : IdempotencyScope → IdempotencyScope → Bool
same_scope a b = a.user_id == b.user_id && (a.key == b.key && text_eq a.endpoint b.endpoint)

abbrev pub at_scope : IdempotencyScope → StoredClaim → Bool
at_scope scope row = same_scope row.scope scope

unfoldable pub new_claim : IdempotencyClaimRequest → StoredClaim
new_claim request = record {
  scope = request.scope;
  request_hash = request.fingerprint;
  state = in_progress;
  claim_id = request.claim_id;
  lease_until = request.lease_until;
  expires_at = request.expires_at;
  disbursement_id = none;
  response_status = none;
  response_body = none;
}

-- `insertIdempotencyClaim`, with the length of the endpoint, the lease check and the foreign key.
unfoldable pub insert_claim_statement : IdempotencyClaimRequest → Statement ℕ
unfolding new_claim
insert_claim_statement request t =
    if ltb 128 (length request.scope.endpoint)
    then (failed (postgres "22001"), t)
    else if ltb request.expires_at request.lease_until
    then (failed (postgres "23514"), t)
    else if is_some (find (at_scope request.scope) t.idempotency_keys)
    then (failed no_rows, t)
    else if not (user_exists request.scope.user_id t.users)
    then (failed (postgres "23503"), t)
    else (
      returned request.claim_id,
      record t { idempotency_keys = t.idempotency_keys ++ new_claim request ∷ [] },
    )

abbrev claim_or_none : Option StoredClaim → Statement StoredClaim
claim_or_none none t = (failed no_rows, t)
claim_or_none (some row) t = (returned row, t)

-- `selectIdempotencyClaimForUpdate` and `verifyIdempotencyOwner`.
unfoldable pub select_claim_statement : IdempotencyScope → Statement StoredClaim
select_claim_statement scope t = claim_or_none (find (at_scope scope) t.idempotency_keys) t

-- The rows that `reclaimIdempotencyClaim` updates, and its SET clause.
unfoldable pub reclaimable : IdempotencyClaimRequest → StoredClaim → Bool
reclaimable request row =
    at_scope request.scope row
    && (leb row.expires_at request.now
        || (is_in_progress row.state
            && (row.request_hash == request.fingerprint && leb row.lease_until request.now)))

unfoldable pub reclaim_row : IdempotencyClaimRequest → StoredClaim → StoredClaim
reclaim_row request row = record row {
  request_hash = request.fingerprint;
  state = in_progress;
  claim_id = request.claim_id;
  lease_until = request.lease_until;
  expires_at = request.expires_at;
  disbursement_id = none;
  response_status = none;
  response_body = none;
}

-- An UPDATE that reports how many rows it has changed.
abbrev pub update_keys : (StoredClaim → Bool) → (StoredClaim → StoredClaim) → Statement ℕ
update_keys p f t = (
  returned (count p t.idempotency_keys),
  record t { idempotency_keys = update_where p f t.idempotency_keys },
)

unfoldable pub reclaim_statement : IdempotencyClaimRequest → Statement ℕ
unfolding reclaimable reclaim_row
reclaim_statement request t =
    if ltb request.expires_at request.lease_until
    then (failed (postgres "23514"), t)
    else update_keys (reclaimable request) (reclaim_row request) t

-- The rows that `completeIdempotencyClaim` updates, and its SET clause.
unfoldable pub owned : IdempotencyScope → ℕ → StoredClaim → Bool
owned scope claim_id row =
    at_scope scope row && (row.claim_id == claim_id && is_in_progress row.state)

-- What is stored of a completion: `jsonb` says which text the JSONB column of the body hands back.
unfoldable pub as_stored : (Text → Text) → IdempotencyCompletion → IdempotencyCompletion
as_stored jsonb completion = record completion {
  response = record completion.response { body = jsonb completion.response.body };
}

unfoldable pub complete_row : IdempotencyCompletion → StoredClaim → StoredClaim
complete_row completion row = record row {
  state = completed;
  disbursement_id = some completion.response.disbursement_id;
  response_status = some completion.response.status_code;
  response_body = some completion.response.body;
}

-- The foreign key is checked where a row is updated.
unfoldable pub complete_statement : IdempotencyCompletion → Statement ℕ
unfolding owned complete_row
complete_statement completion t =
    if count (owned completion.scope completion.claim_id) t.idempotency_keys == 0
    then (returned 0, t)
    else if is_some (find (has_id completion.response.disbursement_id) t.disbursements)
    then update_keys (owned completion.scope completion.claim_id) (complete_row completion) t
    else (failed (postgres "23503"), t)

-- `releaseIdempotencyClaim`.
unfoldable pub release_statement : IdempotencyScope → ℕ → Statement ℕ
unfolding owned
release_statement scope claim_id t = (
  returned (count (owned scope claim_id) t.idempotency_keys),
  record t { idempotency_keys = keep (λ row. not (owned scope claim_id row)) t.idempotency_keys },
)

-- `storedIdempotencyClaim.replayResponse`; `none` is its error. A UUID of the database parses.
abbrev replay_of : (Text → Bool) → Option ℕ → Option ℕ → Option Text → Option ReplayResponse
replay_of json_valid (some id) (some status) (some body) =
    if json_valid body
    then some (record { status_code = status; body = body; disbursement_id = id })
    else none
replay_of json_valid _ _ _ = none

unfoldable pub replay_response : (Text → Bool) → StoredClaim → Option ReplayResponse
replay_response json_valid stored =
    replay_of json_valid stored.disbursement_id stored.response_status stored.response_body

abbrev pub second : ℕ
second = 1000000000

-- A duration rounded up to seconds. The code rounds a float64 of seconds, which is exact to the nanosecond
-- for leases of less than about a hundred days.
unfoldable pub ceil_seconds : ℕ → ℕ
ceil_seconds d = (d + (second - 1)) / second * second

abbrev replayed : Option ReplayResponse → IdempotencyClaimResult
replayed none = only_outcome claim_reused
replayed (some replay) = record {
  outcome = claim_replayed;
  claim_id = 0;
  replay = some replay;
  retry_after = 0;
}

-- `classifyIdempotencyClaim`; `none` tells the caller to reclaim.
unfoldable pub classify_claim :
    (Text → Bool) → StoredClaim → IdempotencyClaimRequest → Option IdempotencyClaimResult
unfolding ceil_seconds replay_response
classify_claim json_valid stored request =
    if ltb request.now stored.expires_at && not (stored.request_hash == request.fingerprint)
    then some (only_outcome claim_reused)
    else if is_completed stored.state && ltb request.now stored.expires_at
    then some (replayed (replay_response json_valid stored))
    else if is_in_progress stored.state
        && (ltb request.now stored.expires_at && ltb request.now stored.lease_until)
    then some (record {
      outcome = claim_in_progress;
      claim_id = 0;
      replay = none;
      retry_after = ceil_seconds (stored.lease_until - request.now);
    })
    else none

abbrev pub acquired : ℕ → IdempotencyClaimResult
acquired claim_id = record {
  outcome = claim_acquired;
  claim_id = claim_id;
  replay = none;
  retry_after = 0;
}

-- An UPDATE or DELETE that has to change exactly one row.
abbrev pub exactly_one : {A : Type 0} → Failure → A → ℕ → Action A
exactly_one failure a rows = if rows == 1 then pure a else raise failure

abbrev pub decide_claim :
    IdempotencyClaimRequest → Option IdempotencyClaimResult → Action IdempotencyClaimResult
decide_claim request (some result) = pure result
decide_claim request none =
    exec_tx (reclaim_statement request)
    >>= exactly_one (repository conflict (plain "idempotency claim changed before reclaim"))
        (acquired request.claim_id)

unfoldable pub acquire_existing :
    (Text → Bool) → IdempotencyClaimRequest → Action IdempotencyClaimResult
acquire_existing json_valid request = within_transaction (
    exec_tx (select_claim_statement request.scope) >>= λ stored.
    decide_claim request (classify_claim json_valid stored request))

abbrev pub inserted_or_existing :
    (Text → Bool) → IdempotencyClaimRequest → Sql ℕ → Action IdempotencyClaimResult
inserted_or_existing json_valid request (returned claim_id) = pure (acquired claim_id)
inserted_or_existing json_valid request (failed no_rows) = acquire_existing json_valid request
inserted_or_existing json_valid request (failed cause) = raise (classify (raw cause))

unfoldable pub acquire : (Text → Bool) → IdempotencyClaimRequest → Action IdempotencyClaimResult
unfolding acquire_existing
acquire json_valid request =
    if request_valid request
    then inspect_pool (insert_claim_statement request) (inserted_or_existing json_valid request)
    else raise (repository constraint (plain "invalid idempotency claim request"))

abbrev pub check_owner : ℕ → StoredClaim → Action (Unit {0})
check_owner claim_id stored =
    if is_in_progress stored.state && stored.claim_id == claim_id
    then pure tt
    else raise (repository ownership_lost (plain "idempotency ownership no longer held"))

unfoldable pub verify_ownership : IdempotencyScope → ℕ → Action (Unit {0})
verify_ownership scope claim_id =
    if not (scope_valid scope) || claim_id == 0
    then raise (repository constraint (plain "invalid idempotency ownership check"))
    else (exec_tx (select_claim_statement scope) >>= check_owner claim_id)

unfoldable pub complete : (Text → Text) → (Text → Bool) → IdempotencyCompletion → Action (Unit {0})
unfolding as_stored
complete jsonb json_valid completion =
    if completion_valid json_valid completion
    then (exec_tx (complete_statement (as_stored jsonb completion))
        >>= exactly_one (repository ownership_lost (plain "idempotency completion ownership lost"))
            tt)
    else raise (repository constraint (plain "invalid idempotency completion"))

unfoldable pub release : IdempotencyScope → ℕ → Action (Unit {0})
release scope claim_id =
    if not (scope_valid scope) || claim_id == 0
    then raise (repository constraint (plain "invalid idempotency release"))
    else (exec_pool (release_statement scope claim_id)
        >>= exactly_one (repository ownership_lost (plain "idempotency release ownership lost")) tt)
