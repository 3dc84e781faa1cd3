-- ===== src/Service/Disbursement.antt =====
-- internal/service/disbursement/service.go: creating, reading, deciding and deleting disbursements.
pub mod Trail
pub mod Debts
pub mod Events
pub mod Creating
pub mod Deciding
pub mod Deleting
pub mod Audited
pub mod Accepted
pub mod Fenced
pub mod Granted
pub mod Once
use disbursment_api.Base.{
  ℕ, Bool, true, false, ◌&&◌, Option, none, some, List, [], ◌∷◌, if◌then◌else◌, is_some,
}
use disbursment_api.Base.Int.{ℤ, pos}
use disbursment_api.Base.Text.{Text, runes}
use disbursment_api.Failure.{
  ErrorCode, DomainError, Failure, domain, repository, raw, Result, ok, err,
  concurrent_modification,
}
use disbursment_api.Domain.Errors
use disbursment_api.Domain.Errors.{
  internal, idempotency_key_reused, idempotency_request_in_progress_with_retry_after,
}
use disbursment_api.Domain.Disbursement.{
  CreateDisbursementInput, Disbursement, Decision, DisbursementStatus, pending, approved, rejected,
  is_approved, is_rejected, validate_input, validate_decision, calculate_admin_fee,
  canonical_bank_code, Pagination, new_pagination,
}
use disbursment_api.Domain.Idempotency.{
  IdempotencyScope, ReplayResponse, IdempotencyClaimResult, IdempotencyCompletion, ClaimOutcome,
  claim_acquired, claim_replayed, claim_in_progress, claim_reused, no_outcome,
  parse_idempotency_key,
}
use disbursment_api.Domain.Audit.{Printer, AuditEvent, new_audit_event, disbursement_json}
use disbursment_api.Repository.Errors.{is_not_found, is_conflict, is_constraint}
use disbursment_api.Repository.World.{
  Action, pure, raise, lift, ◌>>=◌, ◌>>◌, within_transaction, record_metric, finalization_outcome,
  mapping_error, catch, ignore_error,
}
use disbursment_api.Repository.Disbursements
use disbursment_api.Repository.Disbursements.Listing
use disbursment_api.Repository.Disbursements.Listing.{Server, DisbursementFilter}
use disbursment_api.Repository.Outbox
use disbursment_api.Service.Idempotency.{Coordinator}
use disbursment_api.Service.Idempotency

pub record Service : Type 0 where
  pub coordinator : Coordinator
  pub collector : Bool
  pub printer : Printer
  pub input_text : CreateDisbursementInput → Text
  pub response_text : Disbursement → Text

-- What a call reads from its surroundings: clocks, random UUIDs and the server's own time.
pub record Readings : Type 0 where
  pub now : ℕ
  pub store_now : ℕ
  pub claim_now : ℕ
  pub server_now : ℕ
  pub disbursement_id : ℕ
  pub event_id : ℕ
  pub claim_id : Result ℕ

pub record CreateResult : Type 0 where
  pub disbursement : Option Disbursement
  pub is_replay : Bool
  pub replay_response : Option ReplayResponse

-- `mapRepositoryError` and `mapIdempotencyError`.
unfoldable pub map_repository_error : Failure → Failure
map_repository_error (domain e) = domain e
map_repository_error (repository category cause) =
    if is_not_found (repository category cause)
    then domain Errors.disbursement_not_found
    else if is_conflict (repository category cause)
    then domain Errors.disbursement_already_finalized
    else if is_constraint (repository category cause)
    then domain Errors.disbursement_not_deletable
    else domain internal
map_repository_error (raw cause) =
    if is_not_found (raw cause) then domain Errors.disbursement_not_found else domain internal

unfoldable pub map_idempotency_error : Failure → Failure
map_idempotency_error (domain e) = domain e
map_idempotency_error (repository category cause) = domain internal
map_idempotency_error (raw cause) = domain internal

abbrev pub endpoint : Text
endpoint = runes "/disbursements"

abbrev pub entity : Text
entity = runes "disbursement"

abbrev pub created_action : Text
created_action = runes "disbursement.created"

abbrev pub approved_action : Text
approved_action = runes "disbursement.approved"

abbrev pub rejected_action : Text
rejected_action = runes "disbursement.rejected"

abbrev pub deleted_action : Text
deleted_action = runes "disbursement.deleted"

-- The value that `Create` stores.
unfoldable pub new_disbursement : Readings → ℕ → CreateDisbursementInput → ℤ → Text → Disbursement
new_disbursement readings actor_id input admin_fee bank_code = record {
  id = readings.disbursement_id;
  recipient_name = input.recipient_name;
  account_number = input.account_number;
  bank_code = bank_code;
  amount = input.amount;
  admin_fee = admin_fee;
  status = pending;
  note = input.note;
  created_by = actor_id;
  decided_by = 0;
  decision_note = [];
  decided_at = none;
  deleted_at = none;
  created_at = readings.now;
  updated_at = readings.now;
}

unfoldable pub completion_of :
    Service → Readings → IdempotencyScope → ℕ → Disbursement → IdempotencyCompletion
completion_of s readings scope claim_id d = record {
  scope = scope;
  claim_id = claim_id;
  response = record { status_code = 201; body = s.response_text d; disbursement_id = d.id };
  completed_at = readings.now;
}

-- The transaction of `Create`.
unfoldable pub store_disbursement :
    Service → Readings → ℕ → ℕ → IdempotencyScope → ℕ → Disbursement → Action (Unit {0})
store_disbursement s readings actor_id request_id scope claim_id d =
    Idempotency.verify_ownership scope claim_id
    >> (Disbursements.insert d
        >> (lift (
              new_audit_event readings.event_id entity d.id created_action actor_id request_id none
                (some (disbursement_json s.printer d)) readings.now)
            >>= λ event.
                Outbox.insert event readings.server_now
                >> Idempotency.complete s.coordinator (completion_of s readings scope claim_id d)))

abbrev pub created : Disbursement → CreateResult
created d = record { disbursement = some d; is_replay = false; replay_response = none }

-- After a failed transaction the claim is released, and that error is dropped.
abbrev pub give_up : IdempotencyScope → ℕ → Failure → Action CreateResult
give_up scope claim_id e =
    ignore_error (Idempotency.release scope claim_id) >> raise (map_repository_error e)

unfoldable pub create_claimed :
    Service → Readings → ℕ → ℕ → IdempotencyScope → ℕ → Disbursement → Action CreateResult
create_claimed s readings actor_id request_id scope claim_id d =
    catch
      (within_transaction (store_disbursement s readings actor_id request_id scope claim_id d)
        >> pure (created d))
      (give_up scope claim_id)

abbrev pub replay_result : Option ReplayResponse → Action CreateResult
replay_result none = raise (domain internal)
replay_result (some replay) =
    pure (record { disbursement = none; is_replay = true; replay_response = some replay })

-- The switch on the outcome of the claim; any outcome that it does not name goes on.
abbrev pub by_outcome :
    IdempotencyClaimResult → ClaimOutcome → Action CreateResult → Action CreateResult
by_outcome result claim_replayed proceed = replay_result result.replay
by_outcome result claim_in_progress proceed =
    raise (domain (idempotency_request_in_progress_with_retry_after result.retry_after))
by_outcome result claim_reused proceed = raise (domain idempotency_key_reused)
by_outcome result claim_acquired proceed = proceed
by_outcome result no_outcome proceed = proceed

unfoldable pub claim_and_create :
    Service
    → Readings
    → ℕ
    → ℕ
    → Text
    → CreateDisbursementInput
    → ℕ
    → Disbursement
    → Action CreateResult
claim_and_create s readings actor_id request_id key_value input key d =
    mapping_error map_idempotency_error (
      Idempotency.claim s.coordinator actor_id (runes "POST") endpoint key_value
        (s.input_text input) readings.claim_id readings.claim_now)
    >>= λ result. by_outcome result result.outcome (
        create_claimed s readings actor_id request_id
          (record { user_id = actor_id; endpoint = endpoint; key = key }) result.claim_id d)

unfoldable pub create :
    Service → Readings → ℕ → ℕ → Text → CreateDisbursementInput → Action CreateResult
create s readings actor_id request_id key_value input =
    lift (validate_input input)
    >> (lift (calculate_admin_fee input.amount) >>= λ fee.
        lift (canonical_bank_code input.bank_code) >>= λ code.
        lift (parse_idempotency_key s.coordinator.codec.uuids key_value) >>= λ key.
        claim_and_create s readings actor_id request_id key_value input key
          (new_disbursement readings actor_id input fee code))

unfoldable pub get_by_id : ℕ → Action Disbursement
get_by_id id = mapping_error map_repository_error (Disbursements.find_by_id id)

-- `List`: a page of disbursements and its pagination.
unfoldable pub list : Server → DisbursementFilter → Action (List Disbursement × Pagination)
list server filter = mapping_error map_repository_error (Listing.list server filter) >>= λ listed.
    lift (new_pagination filter.page filter.limit (pos listed.1)) >>= λ pagination.
    pure (listed.0, pagination)

abbrev pub decision_action : DisbursementStatus → Text
decision_action status = if is_rejected status then rejected_action else approved_action

abbrev pub time_or : Option ℕ → ℕ → ℕ
time_or none now = now
time_or (some t) now = t

-- The transaction of `UpdateStatus`.
unfoldable pub store_decision : Service → Readings → ℕ → ℕ → ℕ → Decision → Action Disbursement
store_decision s readings actor_id request_id id decision =
    Disbursements.find_by_id id >>= λ before.
    Disbursements.update_status id decision readings.store_now >>= λ updated.
    lift (
      new_audit_event readings.event_id entity updated.id (decision_action decision.status) actor_id
        request_id (some (disbursement_json s.printer before))
        (some (disbursement_json s.printer updated)) (time_or updated.decided_at readings.now))
    >>= λ event. Outbox.insert event readings.server_now >> pure updated

abbrev is_concurrent : Failure → Bool
is_concurrent (domain e) = elim e.code [ concurrent_modification ↦ true | _ ↦ false ]
is_concurrent _ = false

abbrev pub decision_failed : Service → Failure → Action Disbursement
decision_failed s e =
    record_metric (s.collector && is_concurrent (map_repository_error e))
      (finalization_outcome "conflict")
    >> raise (map_repository_error e)

abbrev pub record_decision : Service → DisbursementStatus → Action (Unit {0})
record_decision s approved = record_metric s.collector (finalization_outcome "approved")
record_decision s rejected = record_metric s.collector (finalization_outcome "rejected")
record_decision s _ = pure tt

unfoldable pub decide : Service → Readings → ℕ → ℕ → ℕ → Decision → Action Disbursement
decide s readings actor_id request_id id decision =
    lift (validate_decision decision)
    >> (catch (within_transaction (store_decision s readings actor_id request_id id decision))
          (decision_failed s)
        >>= λ updated. record_decision s decision.status >> pure updated)

-- `UpdateStatus`: the decision is made in the caller's name.
unfoldable pub update_status : Service → Readings → ℕ → ℕ → ℕ → Decision → Action Disbursement
unfolding decide
update_status s readings actor_id request_id id decision =
    decide s readings actor_id request_id id (record decision { actor_id = actor_id })

-- What `SoftDelete` has read before the deletion; a missing row is the zero value.
abbrev pub zero_disbursement : Disbursement
zero_disbursement = record {
  id = 0;
  recipient_name = [];
  account_number = [];
  bank_code = [];
  amount = pos 0;
  admin_fee = pos 0;
  status = DisbursementStatus.other_status [];
  note = [];
  created_by = 0;
  decided_by = 0;
  decision_note = [];
  decided_at = none;
  deleted_at = none;
  created_at = 0;
  updated_at = 0;
}

abbrev pub zero_if_missing : Failure → Action Disbursement
zero_if_missing e = if is_not_found e then pure zero_disbursement else raise e

unfoldable pub event_of_deletion :
    Service → Readings → ℕ → ℕ → Disbursement → Disbursement → Bool → Action (Disbursement × Bool)
event_of_deletion s readings actor_id request_id before deleted true = pure (deleted, true)
event_of_deletion s readings actor_id request_id before deleted false =
    lift (
      new_audit_event readings.event_id entity deleted.id deleted_action actor_id request_id
        (some (disbursement_json s.printer before)) (some (disbursement_json s.printer deleted))
        (time_or deleted.deleted_at readings.now))
    >>= λ event. Outbox.insert event readings.server_now >> pure (deleted, false)

-- The transaction of `SoftDelete`.
unfoldable pub store_deletion : Service → Readings → ℕ → ℕ → ℕ → Action (Disbursement × Bool)
unfolding event_of_deletion
store_deletion s readings actor_id request_id id =
    catch (Disbursements.find_by_id id) zero_if_missing >>= λ before.
    Disbursements.soft_delete id readings.store_now >>= λ answer.
    event_of_deletion s readings actor_id request_id before answer.0 answer.1

unfoldable pub soft_delete : Service → Readings → ℕ → ℕ → ℕ → Action (Disbursement × Bool)
soft_delete s readings actor_id request_id id =
    mapping_error map_repository_error
      (within_transaction (store_deletion s readings actor_id request_id id))
