-- ===== src/Service/Disbursement/Creating.antt =====
-- internal/service/disbursement/service.go: `Create` and the audit trail, through all its branches.
use disbursment_api.Base.{ℕ, ◌≡◌, refl, Bool, Option, none, some}
use disbursment_api.Base.Text.{Text}
use disbursment_api.Failure.{Failure, Result}
use disbursment_api.Domain.Disbursement.{CreateDisbursementInput, Disbursement, pending}
use disbursment_api.Domain.Idempotency.{
  IdempotencyScope, IdempotencyClaimResult, ClaimOutcome, claim_acquired, claim_replayed,
  claim_in_progress, claim_reused, no_outcome, ReplayResponse, IdempotencyCompletion,
}
use disbursment_api.Repository.World.{Env, Action}
use disbursment_api.Repository.World.Rules.{bind-Triple}
use disbursment_api.Repository.World.Handlers.{
  record_metric-Triple, mapping_error-Triple, catch-Triple, ignore_error-Triple,
}
use disbursment_api.Repository.World.Keeps.{
  Keeps, KeepsOutside, Calm, bind-Keeps, lift-Keeps, raise-KeepsOutside, pure-KeepsOutside,
  lift-KeepsOutside, within_transaction-Keeps,
}
use disbursment_api.Repository.IdempotencyKeys.Keeping.{
  verify_ownership-Keeps, complete-Keeps, acquire-KeepsOutside, release-KeepsOutside,
}
use disbursment_api.Service.Idempotency
use disbursment_api.Service.Idempotency.{Coordinator, record_claim, or_plain}
use disbursment_api.Service.Disbursement.{
  Service, Readings, CreateResult, new_disbursement, store_disbursement, create_claimed, give_up,
  replay_result, by_outcome, claim_and_create, create, created_action,
}
use disbursment_api.Service.Disbursement.Events.{
  new_event-Triple, insert_event-Triple, insert-Triple,
}
use disbursment_api.Service.Disbursement.Trail.{Side, Kept}

module _ (side : Side) (env : Env) where
  complete-Keeps_trail :
      (coordinator : Coordinator) (completion : IdempotencyCompletion)
      → Keeps env (Kept side) (Idempotency.complete coordinator completion)
  unfolding Idempotency.complete
  complete-Keeps_trail coordinator completion =
      bind-Keeps env (Kept side) _ _ (lift-Keeps env (Kept side) _) (λ body.
        complete-Keeps (Kept side) (λ t rows h. h) env coordinator.codec.jsonb
          coordinator.codec.json_valid _)

  store_disbursement-Keeps :
      (s : Service) (readings : Readings) (actor_id request_id : ℕ) (scope : IdempotencyScope)
      (claim_id : ℕ) (d : Disbursement)
      → d.status ≡ pending
      → d.deleted_at ≡ none
      → side.Names readings.event_id d.id created_action
      → Keeps env (Kept side) (store_disbursement s readings actor_id request_id scope claim_id d)
  unfolding store_disbursement Idempotency.verify_ownership
  store_disbursement-Keeps s readings actor_id request_id scope claim_id d new live named =
      bind-Keeps env (Kept side) _ _
        (verify_ownership-Keeps (Kept side) (λ t rows h. h) env scope claim_id)
        (λ u. bind-Triple (insert-Triple side env d new live) (λ u.
          bind-Triple (new_event-Triple side env _ _ d.id created_action _ _ _ _ _ named) (λ event.
            bind-Triple (insert_event-Triple side env event readings.server_now d.id created_action)
              (λ u. complete-Keeps_trail s.coordinator _))))

  module _ (calm : Calm env (Kept side)) where
    give_up-KeepsOutside :
        (scope : IdempotencyScope) (claim_id : ℕ) (e : Failure)
        → KeepsOutside env (Kept side) (give_up scope claim_id e)
    unfolding Idempotency.release
    give_up-KeepsOutside scope claim_id e =
        bind-Triple
          (ignore_error-Triple _
            (release-KeepsOutside (Kept side) (λ t rows h. h) env calm scope claim_id)
            (λ a c v p. p))
          (λ u. raise-KeepsOutside env (Kept side) _)

    create_claimed-KeepsOutside :
        (s : Service) (readings : Readings) (actor_id request_id : ℕ) (scope : IdempotencyScope)
        (claim_id : ℕ) (d : Disbursement)
        → d.status ≡ pending
        → d.deleted_at ≡ none
        → side.Names readings.event_id d.id created_action
        → KeepsOutside env
            (Kept side)
            (create_claimed s readings actor_id request_id scope claim_id d)
    unfolding create_claimed
    create_claimed-KeepsOutside s readings actor_id request_id scope claim_id d new live named =
        catch-Triple _
          (bind-Triple
            (within_transaction-Keeps env (Kept side) calm _ (
              store_disbursement-Keeps s readings actor_id request_id scope claim_id d new live
                named))
            (λ u. pure-KeepsOutside env (Kept side) _))
          _ (give_up-KeepsOutside scope claim_id)

    replay_result-KeepsOutside :
        (replay : Option ReplayResponse) → KeepsOutside env (Kept side) (replay_result replay)
    replay_result-KeepsOutside none = raise-KeepsOutside env (Kept side) _
    replay_result-KeepsOutside (some replay) = pure-KeepsOutside env (Kept side) _

    by_outcome-KeepsOutside :
        (result : IdempotencyClaimResult) (outcome : ClaimOutcome) (proceed : Action CreateResult)
        → KeepsOutside env (Kept side) proceed
        → KeepsOutside env (Kept side) (by_outcome result outcome proceed)
    by_outcome-KeepsOutside result claim_replayed proceed h =
        replay_result-KeepsOutside result.replay
    by_outcome-KeepsOutside result claim_in_progress proceed h =
        raise-KeepsOutside env (Kept side) _
    by_outcome-KeepsOutside result claim_reused proceed h = raise-KeepsOutside env (Kept side) _
    by_outcome-KeepsOutside result claim_acquired proceed h = h
    by_outcome-KeepsOutside result no_outcome proceed h = h

    record_claim-KeepsOutside :
        (collector : Bool) (result : IdempotencyClaimResult) (outcome : ClaimOutcome)
        → KeepsOutside env (Kept side) (record_claim collector result outcome)
    record_claim-KeepsOutside collector result no_outcome = pure-KeepsOutside env (Kept side) _
    record_claim-KeepsOutside collector result claim_acquired =
        bind-Triple (record_metric-Triple collector _) (λ u. pure-KeepsOutside env (Kept side) _)
    record_claim-KeepsOutside collector result claim_replayed =
        bind-Triple (record_metric-Triple collector _) (λ u. pure-KeepsOutside env (Kept side) _)
    record_claim-KeepsOutside collector result claim_in_progress =
        bind-Triple (record_metric-Triple collector _) (λ u. pure-KeepsOutside env (Kept side) _)
    record_claim-KeepsOutside collector result claim_reused =
        bind-Triple (record_metric-Triple collector _) (λ u. pure-KeepsOutside env (Kept side) _)

    claim-KeepsOutside :
        (coordinator : Coordinator) (user_id : ℕ) (method endpoint key_value payload : Text)
        (claim_id : Result ℕ) (now : ℕ)
        → KeepsOutside env
            (Kept side)
            (Idempotency.claim coordinator user_id method endpoint key_value payload claim_id now)
    unfolding Idempotency.claim
    claim-KeepsOutside coordinator user_id method endpoint key_value payload claim_id now =
        bind-Triple (lift-KeepsOutside env (Kept side) _) (λ key.
          bind-Triple (lift-KeepsOutside env (Kept side) _) (λ print.
            bind-Triple (lift-KeepsOutside env (Kept side) _) (λ id.
              bind-Triple (acquire-KeepsOutside (Kept side) (λ t rows h. h) env calm _ _)
                (λ result. record_claim-KeepsOutside coordinator.collector result result.outcome))))

    pub create-KeepsOutside :
        (s : Service) (readings : Readings) (actor_id request_id : ℕ) (key_value : Text)
        (input : CreateDisbursementInput)
        → side.Names readings.event_id readings.disbursement_id created_action
        → KeepsOutside env (Kept side) (create s readings actor_id request_id key_value input)
    unfolding create claim_and_create new_disbursement
    create-KeepsOutside s readings actor_id request_id key_value input named =
        bind-Triple (lift-KeepsOutside env (Kept side) _) (λ u.
          bind-Triple (lift-KeepsOutside env (Kept side) _) (λ fee.
            bind-Triple (lift-KeepsOutside env (Kept side) _) (λ code.
              bind-Triple (lift-KeepsOutside env (Kept side) _) (λ key.
                bind-Triple (mapping_error-Triple _ (claim-KeepsOutside _ _ _ _ _ _ _ _) _)
                  (λ result. by_outcome-KeepsOutside result result.outcome _ (
                    create_claimed-KeepsOutside s readings actor_id request_id _ _ _ refl refl
                      named))))))
