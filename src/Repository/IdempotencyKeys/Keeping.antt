-- ===== src/Repository/IdempotencyKeys/Keeping.antt =====
-- internal/repository/postgres/idempotency.go: its operations keep every invariant of the tables that
-- says nothing about the keys, however their exchanges with the server go.
use disbursment_api.Base.{
  count, ℕ, Bool, Option, none, some, List, Bool-cases, Option-cases, inl, inr, find, is_some,
  length, ltb, ◌==◌,
}
use disbursment_api.Base.Text.{Text}
use disbursment_api.Failure.{no_rows, canceled, deadline_exceeded, postgres, plain, Failure}
use disbursment_api.Domain.Idempotency.{
  IdempotencyScope, IdempotencyClaimRequest, IdempotencyClaimResult, IdempotencyCompletion,
}
use disbursment_api.Repository.Tables.{StoredClaim, Tables}
use disbursment_api.Repository.Disbursements.{has_id, user_exists}
use disbursment_api.Repository.World.{Sql, returned, failed, Env}
use disbursment_api.Repository.World.Rules.{bind-Triple}
use disbursment_api.Repository.World.Keeps.{
  Keeps, KeepsOutside, Preserves, Calm, raise-Keeps, pure-Keeps, if-Keeps, bind-Keeps,
  exec_tx-Keeps, raise-KeepsOutside, pure-KeepsOutside, if-KeepsOutside, exec_pool-KeepsOutside,
  inspect_pool-KeepsOutside, within_transaction-Keeps,
}
use disbursment_api.Repository.IdempotencyKeys.{
  at_scope, insert_claim_statement, select_claim_statement, reclaim_statement, owned, as_stored,
  complete_statement, release_statement, classify_claim, exactly_one, decide_claim,
  acquire_existing, inserted_or_existing, acquire, check_owner, verify_ownership, complete, release,
  acquired,
}

-- An invariant that looks at other tables only.
abbrev pub IgnoresKeys : (Tables → Type 0) → Type 0
IgnoresKeys I =
    (t : Tables) (rows : List StoredClaim) → I t → I (record t { idempotency_keys = rows })

module _ (I : Tables → Type 0) (ignores : IgnoresKeys I) where
  insert_claim-Preserves :
      (request : IdempotencyClaimRequest) → Preserves I (insert_claim_statement request)
  unfolding insert_claim_statement
  insert_claim-Preserves request t h = elim (Bool-cases (ltb 128 (length request.scope.endpoint))) [
    | inl long ↦ rw long h
    | inr short ↦ elim (Bool-cases (ltb request.expires_at request.lease_until)) [
      | inl late ↦ rw (short, late) h
      | inr timely ↦
          elim (Bool-cases (is_some (find (at_scope request.scope) t.idempotency_keys))) [
            | inl known ↦ rw (short, timely, known) h
            | inr fresh ↦ elim (Bool-cases (user_exists request.scope.user_id t.users)) [
              | inl user ↦ rw (short, timely, fresh, user) (ignores t _ h)
              | inr stranger ↦ rw (short, timely, fresh, stranger) h
            ]
          ]
    ]
  ]

  select_claim-Preserves : (scope : IdempotencyScope) → Preserves I (select_claim_statement scope)
  unfolding select_claim_statement
  select_claim-Preserves scope t h =
      elim (Option-cases (find (at_scope scope) t.idempotency_keys)) [
        | inl missing ↦ rw missing h
        | inr (row, found) ↦ rw found h
      ]

  reclaim-Preserves : (request : IdempotencyClaimRequest) → Preserves I (reclaim_statement request)
  unfolding reclaim_statement
  reclaim-Preserves request t h = elim (Bool-cases (ltb request.expires_at request.lease_until)) [
    | inl late ↦ rw late h
    | inr timely ↦ rw timely (ignores t _ h)
  ]

  complete-Preserves :
      (completion : IdempotencyCompletion) → Preserves I (complete_statement completion)
  unfolding complete_statement
  complete-Preserves completion t h =
      elim (Bool-cases
        (count (owned completion.scope completion.claim_id) t.idempotency_keys == 0)) [
          | inl none_left ↦ rw none_left h
          | inr owner ↦
              elim (Bool-cases
                (is_some (find (has_id completion.response.disbursement_id) t.disbursements))) [
                  | inl known ↦ rw (owner, known) (ignores t _ h)
                  | inr missing ↦ rw (owner, missing) h
                ]
        ]

  release-Preserves :
      (scope : IdempotencyScope) (claim_id : ℕ) → Preserves I (release_statement scope claim_id)
  unfolding release_statement
  release-Preserves scope claim_id t h = ignores t _ h

  module _ (env : Env) where
    exactly_one-Keeps :
        {A : Type 0} (e : Failure) (a : A) (rows : ℕ) → Keeps env I (exactly_one e a rows)
    exactly_one-Keeps e a rows =
        if-Keeps env I (rows == 1) _ _ (pure-Keeps env I a) (raise-Keeps env I e)

    check_owner-Keeps :
        (claim_id : ℕ) (stored : StoredClaim) → Keeps env I (check_owner claim_id stored)
    check_owner-Keeps claim_id stored =
        if-Keeps env I _ _ _ (pure-Keeps env I tt) (raise-Keeps env I _)

    pub verify_ownership-Keeps :
        (scope : IdempotencyScope) (claim_id : ℕ) → Keeps env I (verify_ownership scope claim_id)
    unfolding verify_ownership
    verify_ownership-Keeps scope claim_id = if-Keeps env I _ _ _ (raise-Keeps env I _) (
        bind-Keeps env I _ _ (exec_tx-Keeps env I _ (select_claim-Preserves scope))
          (check_owner-Keeps claim_id))

    pub complete-Keeps :
        (jsonb : Text → Text) (json_valid : Text → Bool) (completion : IdempotencyCompletion)
        → Keeps env I (complete jsonb json_valid completion)
    unfolding complete
    complete-Keeps jsonb json_valid completion =
        if-Keeps env I _ _ _
          (bind-Keeps env I _ _
            (exec_tx-Keeps env I _ (complete-Preserves (as_stored jsonb completion)))
            (exactly_one-Keeps _ tt))
          (raise-Keeps env I _)

    decide_claim-Keeps :
        (request : IdempotencyClaimRequest) (o : Option IdempotencyClaimResult)
        → Keeps env I (decide_claim request o)
    decide_claim-Keeps request (some result) = pure-Keeps env I result
    decide_claim-Keeps request none =
        bind-Keeps env I _ _ (exec_tx-Keeps env I _ (reclaim-Preserves request))
          (exactly_one-Keeps _ (acquired request.claim_id))

    module _ (calm : Calm env I) where
      acquire_existing-Keeps :
          (json_valid : Text → Bool) (request : IdempotencyClaimRequest)
          → KeepsOutside env I (acquire_existing json_valid request)
      unfolding acquire_existing
      acquire_existing-Keeps json_valid request = within_transaction-Keeps env I calm _ (
          bind-Keeps env I _ _ (exec_tx-Keeps env I _ (select_claim-Preserves request.scope))
            (λ stored. decide_claim-Keeps request (classify_claim json_valid stored request)))

      inserted_or_existing-Keeps :
          (json_valid : Text → Bool) (request : IdempotencyClaimRequest) (r : Sql ℕ)
          → KeepsOutside env I (inserted_or_existing json_valid request r)
      inserted_or_existing-Keeps json_valid request (returned claim_id) = pure-KeepsOutside env I _
      inserted_or_existing-Keeps json_valid request (failed no_rows) =
          acquire_existing-Keeps json_valid request
      inserted_or_existing-Keeps json_valid request (failed canceled) = raise-KeepsOutside env I _
      inserted_or_existing-Keeps json_valid request (failed deadline_exceeded) =
          raise-KeepsOutside env I _
      inserted_or_existing-Keeps json_valid request (failed (postgres s)) =
          raise-KeepsOutside env I _
      inserted_or_existing-Keeps json_valid request (failed (plain s)) = raise-KeepsOutside env I _

      pub acquire-KeepsOutside :
          (json_valid : Text → Bool) (request : IdempotencyClaimRequest)
          → KeepsOutside env I (acquire json_valid request)
      unfolding acquire
      acquire-KeepsOutside json_valid request =
          if-KeepsOutside env I _ _ _
            (inspect_pool-KeepsOutside env I calm _ _ (insert_claim-Preserves request)
              (inserted_or_existing-Keeps json_valid request))
            (raise-KeepsOutside env I _)

      pub release-KeepsOutside :
          (scope : IdempotencyScope) (claim_id : ℕ) → KeepsOutside env I (release scope claim_id)
      unfolding release
      release-KeepsOutside scope claim_id =
          if-KeepsOutside env I _ _ _ (raise-KeepsOutside env I _) (
            bind-Triple (exec_pool-KeepsOutside env I calm _ (release-Preserves scope claim_id))
              (λ rows.
                if-KeepsOutside env I (rows == 1) _ _ (pure-KeepsOutside env I tt)
                  (raise-KeepsOutside env I _)))
