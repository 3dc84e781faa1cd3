-- ===== src/Service/Disbursement/Granted.antt =====
-- internal/service/disbursement/service.go, `Create`, while the database works and no other session
-- commits: a fresh key makes a disbursement.
use disbursment_api.Base.{
  ℕ, ◌+◌, ◌<◌, ◌≡◌, refl, true, false, none, some, [], ◌∷◌, ◌++◌, find, ◌==◌, arith,
}
use disbursment_api.Base.Appending.{find-append_new}
use disbursment_api.Base.Int.{ℤ}
use disbursment_api.Base.Text.{Text, runes, trim_space}
use disbursment_api.Failure.{ok}
use disbursment_api.Domain.Audit.{AuditEvent, new_audit_event, disbursement_json, audit_snapshot}
use disbursment_api.Domain.Disbursement.{
  CreateDisbursementInput, Disbursement, validate_input, calculate_admin_fee, canonical_bank_code,
}
use disbursment_api.Domain.Idempotency.{
  IdempotencyScope, IdempotencyClaimRequest, IdempotencyCompletion, request_valid, scope_valid,
  completion_valid, response_valid, parse_idempotency_key,
}
use disbursment_api.Repository.Disbursements
use disbursment_api.Repository.Disbursements.{
  to_row, has_id, texts_storable, insert_statement, broken_constraint, user_exists,
}
use disbursment_api.Repository.IdempotencyKeys
use disbursment_api.Repository.IdempotencyKeys.{
  at_scope, new_claim, as_stored, complete_row, acquired,
}
use disbursment_api.Repository.IdempotencyKeys.Granting.{
  Fits, same_number, with_claim, acquire-granted, verify_ownership-granted, complete-granted,
}
use disbursment_api.Repository.Outbox
use disbursment_api.Repository.Outbox.{event_invalid, is_event, outbox_row, insert_event_statement}
use disbursment_api.Repository.Tables.{StoredClaim, Tables}
use disbursment_api.Repository.World.{Env}
use disbursment_api.Repository.World.Quiet.{
  Quiet, Yields, pure-Yields, lift-Yields, bind-Yields, exec_tx-Yields, within_transaction-Yields,
  record_metric-Yields, mapping_error-Yields, catch-Yields,
}
use disbursment_api.Service.Disbursement.{
  Service, Readings, endpoint, entity, created_action, new_disbursement, completion_of,
  store_disbursement, created, create_claimed, claim_and_create, create,
}
use disbursment_api.Service.Disbursement.Accepted.{new_disbursement-constraints}
use disbursment_api.Service.Idempotency
use disbursment_api.Service.Idempotency.{claim_request, fingerprint, or_plain, record_claim}

abbrev pub scope_of : ℕ → ℕ → IdempotencyScope
scope_of actor_id key = record { user_id = actor_id; endpoint = endpoint; key = key }

-- What the program computes from a request before it asks the database.
pub record Computed (s : Service) (r : Readings) (key_value : Text)
    (input : CreateDisbursementInput) (fee : ℤ) (code : Text) (key print claim_id : ℕ)
    : Type 0 where
  pub valid : validate_input input ≡ ok tt
  pub has_fee : calculate_admin_fee input.amount ≡ ok fee
  pub canonical : canonical_bank_code input.bank_code ≡ ok code
  pub parsed : parse_idempotency_key s.coordinator.codec.uuids key_value ≡ ok key
  pub printed :
      fingerprint s.coordinator.codec (runes "POST") endpoint (s.input_text input) ≡ ok print
  pub generated : r.claim_id ≡ ok claim_id
  pub lease : 0 < s.coordinator.lease_ttl
  pub replay : s.coordinator.lease_ttl < s.coordinator.replay_ttl
  pub key_set : (key == 0) ≡ false
  pub claim_set : (claim_id == 0) ≡ false

-- What is fresh, that the texts of the disbursement have no U+0000, and what the response is written as;
-- what its column hands back is JSON again.
pub record Fresh (s : Service) (r : Readings) (actor_id request_id key : ℕ) (d : Disbursement)
    (body : Text) (c : Tables) : Type 0 where
  pub new_key : find (at_scope (scope_of actor_id key)) c.idempotency_keys ≡ none
  pub new_id : find (has_id r.disbursement_id) c.disbursements ≡ none
  pub new_event : find (is_event r.event_id) c.audit_outbox ≡ none
  pub texts : texts_storable (to_row d) ≡ true
  pub request_set : (request_id == 0) ≡ false
  pub event_set : (r.event_id == 0) ≡ false
  pub id_set : (r.disbursement_id == 0) ≡ false
  pub now_set : (r.now == 0) ≡ false
  pub written : s.coordinator.codec.canonical_json (s.response_text d) ≡ some body
  pub json : s.coordinator.codec.json_valid body ≡ true
  pub stored_json : s.coordinator.codec.json_valid (s.coordinator.codec.jsonb body) ≡ true

pub trim_space-endpoint : trim_space endpoint ≡ endpoint
unfolding trim_space
trim_space-endpoint = refl

module _ (s : Service) (r : Readings) (actor_id : ℕ) (key print claim_id : ℕ) where
  abbrev pub request : IdempotencyClaimRequest
  request = record {
    scope = scope_of actor_id key;
    fingerprint = print;
    claim_id = claim_id;
    lease_until = r.claim_now + s.coordinator.lease_ttl;
    expires_at = r.claim_now + s.coordinator.replay_ttl;
    now = r.claim_now;
  }

  pub claim_request-request :
      claim_request s.coordinator actor_id endpoint key print claim_id r.claim_now ≡ request
  unfolding claim_request trim_space
  claim_request-request = refl

  pub request-Fits :
      (c : Tables)
      → (actor_id == 0) ≡ false
      → (key == 0) ≡ false
      → (claim_id == 0) ≡ false
      → 0 < s.coordinator.lease_ttl
      → s.coordinator.lease_ttl < s.coordinator.replay_ttl
      → user_exists actor_id c.users ≡ true
      → Fits request c
  unfolding request_valid scope_valid
  request-Fits c actor_set key_set claim_set lease replay known = record {
    valid = ground arith;
    short = omega arith;
    known = known;
  }

module _ {env : Env} (quiet : Quiet env) (s : Service) (r : Readings) (actor_id request_id : ℕ)
    (key_value : Text) (input : CreateDisbursementInput) (fee : ℤ) (code : Text)
    (key print claim_id : ℕ) (body : Text) (c : Tables) (actor_set : (actor_id == 0) ≡ false)
    (known : user_exists actor_id c.users ≡ true)
    (computed : Computed s r key_value input fee code key print claim_id) where
  abbrev pub d : Disbursement
  d = new_disbursement r actor_id input fee code

  abbrev pub completion : IdempotencyCompletion
  completion = record (completion_of s r (scope_of actor_id key) claim_id d) {
    response = record { status_code = 201; body = body; disbursement_id = d.id };
  }

  abbrev pub event : AuditEvent
  event = record {
    event_id = r.event_id;
    entity_type = entity;
    entity_id = d.id;
    action = created_action;
    actor_id = actor_id;
    request_id = request_id;
    before_data = none;
    after_data = audit_snapshot (some (disbursement_json s.printer d));
    occurred_at = r.now;
  }

  abbrev pub granted : IdempotencyClaimRequest
  granted = request s r actor_id key print claim_id

  -- The tables with the claim, then with the disbursement, its event and the completed claim.
  abbrev pub claimed : Tables
  claimed = with_claim (new_claim granted) c

  abbrev pub finished : StoredClaim
  finished = complete_row (as_stored s.coordinator.codec.jsonb completion) (new_claim granted)

  abbrev pub after_create : Tables
  after_create = record c {
    disbursements = c.disbursements ++ to_row d ∷ [];
    audit_outbox = c.audit_outbox ++ outbox_row event r.server_now ∷ [];
    idempotency_keys = c.idempotency_keys ++ finished ∷ [];
  }

  granted-Fits : Fits granted c
  granted-Fits =
      request-Fits s r actor_id key print claim_id c actor_set computed.key_set computed.claim_set
        computed.lease computed.replay known

  module _ (fresh : Fresh s r actor_id request_id key d body c) where
    event-made :
        new_audit_event r.event_id entity d.id created_action actor_id request_id none
          (some (disbursement_json s.printer d))
          r.now
        ≡ ok event
    unfolding new_audit_event trim_space new_disbursement audit_snapshot
    event-made =
        rw fresh.event_set
          (rw fresh.id_set (rw actor_set (rw fresh.request_set (rw fresh.now_set refl))))

    event-valid : event_invalid event ≡ false
    unfolding event_invalid new_disbursement
    event-valid =
        let e1 = fresh.event_set in
        let e2 = fresh.id_set in
        let e3 = fresh.request_set in let e4 = fresh.now_set in ground arith

    insert-Yields :
        (v : Tables)
        → v.disbursements ≡ c.disbursements
        → v.users ≡ c.users
        → Yields env claimed v
            (Disbursements.insert d)
            tt
            claimed
            (record v { disbursements = c.disbursements ++ to_row d ∷ [] })
    unfolding Disbursements.insert insert_statement
    insert-Yields v same_rows same_users =
        let whole =
          new_disbursement-constraints c.users r actor_id input fee code computed.valid
            computed.has_fee computed.canonical known in
        let none_there : find (has_id (to_row d).id) c.disbursements ≡ none =
          unfold to_row new_disbursement in fresh.new_id in
        exec_tx-Yields quiet (insert_statement (to_row d)) claimed v tt _
          (rw same_users (rw fresh.texts (rw whole (rw same_rows (rw none_there refl)))))

    outbox-Yields :
        (v : Tables)
        → v.audit_outbox ≡ c.audit_outbox
        → v.users ≡ c.users
        → Yields env claimed v
            (Outbox.insert event r.server_now)
            tt
            claimed
            (record v { audit_outbox = c.audit_outbox ++ outbox_row event r.server_now ∷ [] })
    unfolding Outbox.insert insert_event_statement
    outbox-Yields v same_events same_users = rw event-valid (
        exec_tx-Yields quiet (insert_event_statement event r.server_now) claimed v tt _
          (rw same_events (rw fresh.new_event (rw same_users (rw known refl)))))

    completion-valid : completion_valid s.coordinator.codec.json_valid completion ≡ true
    unfolding completion_valid scope_valid response_valid new_disbursement completion_of
    completion-valid =
        let e1 = fresh.id_set in
        let e2 = fresh.json in
        let e3 = fresh.now_set in
        let e4 = computed.key_set in let e5 = computed.claim_set in ground arith

    found : find (has_id d.id) (c.disbursements ++ to_row d ∷ []) ≡ some (to_row d)
    unfolding to_row new_disbursement
    found =
        find-append_new (has_id r.disbursement_id) c.disbursements (to_row d) fresh.new_id
          (same_number r.disbursement_id)

    complete-Yields :
        (v : Tables)
        → v.idempotency_keys ≡ c.idempotency_keys ++ new_claim granted ∷ []
        → v.disbursements ≡ c.disbursements ++ to_row d ∷ []
        → Yields env claimed v
            (Idempotency.complete s.coordinator
              (completion_of s r (scope_of actor_id key) claim_id d))
            tt
            claimed
            (record v { idempotency_keys = c.idempotency_keys ++ finished ∷ [] })
    unfolding Idempotency.complete completion_of
    complete-Yields v same_keys same_rows = bind-Yields _ (lift-Yields (rw fresh.written refl)) (
        complete-granted quiet s.coordinator.codec.json_valid granted c granted-Fits fresh.new_key
          s.coordinator.codec.jsonb completion claimed v same_keys refl refl completion-valid
          (rw same_rows (rw found refl)))

    store-Yields :
        Yields env claimed claimed
          (store_disbursement s r actor_id request_id (scope_of actor_id key) claim_id d)
          tt
          claimed
          after_create
    unfolding store_disbursement Idempotency.verify_ownership
    store-Yields =
        bind-Yields _
          (verify_ownership-granted quiet s.coordinator.codec.json_valid granted c granted-Fits
            fresh.new_key claimed claimed refl)
          (bind-Yields _ (insert-Yields claimed refl refl) (
            bind-Yields _ (lift-Yields event-made)
              (bind-Yields _ (outbox-Yields _ refl refl) (complete-Yields _ refl refl))))

    pub claim-Yields :
        (v : Tables)
        → Yields env c v
            (Idempotency.claim s.coordinator actor_id
              (runes "POST")
              endpoint
              key_value
              (s.input_text input)
              r.claim_id
              r.claim_now)
            (acquired claim_id)
            claimed
            claimed
    unfolding Idempotency.claim
    claim-Yields v =
        let acquired_claim : Yields env c v
            (IdempotencyKeys.acquire s.coordinator.codec.json_valid
              (claim_request s.coordinator actor_id endpoint key print claim_id r.claim_now))
            (acquired claim_id) claimed claimed =
          rw (claim_request-request s r actor_id key print claim_id) (
            acquire-granted quiet s.coordinator.codec.json_valid granted c v granted-Fits
              fresh.new_key) in
        bind-Yields _ (lift-Yields computed.parsed) (
          bind-Yields _ (lift-Yields computed.printed) (
            bind-Yields _ (lift-Yields computed.generated) (
              bind-Yields _ acquired_claim (
                bind-Yields _ (record_metric-Yields quiet s.coordinator.collector _ claimed claimed)
                  pure-Yields))))

    pub create-Yields :
        (v : Tables)
        → Yields env c v
            (create s r actor_id request_id key_value input)
            (created d)
            after_create
            after_create
    unfolding create claim_and_create create_claimed
    create-Yields v = bind-Yields _ (lift-Yields computed.valid) (
        bind-Yields _ (lift-Yields computed.has_fee) (
          bind-Yields _ (lift-Yields computed.canonical) (
            bind-Yields _ (lift-Yields computed.parsed) (
              bind-Yields _ (mapping_error-Yields _ (claim-Yields v)) (
                catch-Yields _
                  (bind-Yields _ (within_transaction-Yields quiet store-Yields) pure-Yields))))))
