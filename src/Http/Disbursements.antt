-- ===== src/Http/Disbursements.antt =====
-- internal/httpapi/disbursement_handler.go.
use disbursment_api.Base.{
  ℕ, Bool, true, false, ◌&&◌, Option, none, some, [], ◌∷◌, map, if◌then◌else◌,
}
use disbursment_api.Base.Text.{Text, runes, is_empty, text_eq, to_upper}
use disbursment_api.Failure.{Failure, domain, Result, ok, err}
use disbursment_api.Domain.Errors.{
  validation, unauthorized, invalid_idempotency_key, disbursement_not_found,
}
use disbursment_api.Domain.Disbursement.{
  CreateDisbursementInput, Disbursement, DisbursementStatus, pending, approved, rejected,
  other_status, Decision, DateRange, new_utc_date_range,
}
use disbursment_api.Domain.Idempotency.{ReplayResponse}
use disbursment_api.Http.Dto.{
  CreateDisbursementRequest, UpdateDisbursementStatusRequest, ListDisbursementsQuery, create_fields,
  status_fields, query_fields, new_disbursement_response,
}
use disbursment_api.Http.Handling.{
  Reply, success, no_content, disbursement, disbursements, raw_json, Request, Binder, invalid_body,
  invalid_query, required_or, bound,
}
use disbursment_api.Http.Validation.{Engine}
use disbursment_api.Middleware.Roles.{UserIdentity}
use disbursment_api.Repository.Disbursements.Listing.{Server, DisbursementFilter}
use disbursment_api.Repository.World.{Action, pure, raise, lift, ◌>>=◌, ◌>>◌}
use disbursment_api.Service.Disbursement
use disbursment_api.Service.Disbursement.{Service, Readings, CreateResult, zero_disbursement}

-- `DisbursementHandler` with what it calls; `new_id` is a fresh UUID.
pub record DisbursementHandler : Type 0 where
  pub service : Service
  pub server : Server
  pub engine : Engine
  pub binder : Binder
  pub new_id : ℕ

abbrev pub id_or : ℕ → Option ℕ → ℕ
id_or fresh none = fresh
id_or fresh (some id) = id

-- The request's id as a UUID, or a fresh one.
abbrev pub request_uuid : DisbursementHandler → Request → ℕ
request_uuid h request = id_or h.new_id (h.binder.uuid request.request_id)

abbrev pub with_identity : {A : Type 0} → Option UserIdentity → (UserIdentity → Action A) → Action A
with_identity none k = raise (domain unauthorized)
with_identity (some identity) k = k identity

abbrev pub path_id : DisbursementHandler → Request → Action ℕ
path_id h request = required_or (domain disbursement_not_found) (h.binder.uuid request.id)

unfoldable pub input_of : CreateDisbursementRequest → CreateDisbursementInput
input_of r = record {
  recipient_name = r.recipient_name;
  account_number = r.account_number;
  bank_code = r.bank_code;
  amount = r.amount;
  note = r.note;
}

abbrev pub present_key : Text → Action Text
present_key key = if is_empty key then raise (domain invalid_idempotency_key) else pure key

-- A result without a disbursement holds Go's zero value.
abbrev pub created_reply : Option Disbursement → Reply
created_reply (some d) = success 201 false (disbursement (new_disbursement_response d))
created_reply none = success 201 false (disbursement (new_disbursement_response zero_disbursement))

abbrev pub create_reply : Bool → Option ReplayResponse → Option Disbursement → Reply
create_reply true (some replay) d = success replay.status_code true (raw_json replay.body)
create_reply true none d = created_reply d
create_reply false replay d = created_reply d

unfoldable pub create :
    DisbursementHandler → Readings → Option UserIdentity → Request → Action Reply
create h readings caller request = with_identity caller λ identity.
    bound h.engine create_fields invalid_body (h.binder.create request.body) >>= λ body.
    present_key request.idempotency_key >>= λ key.
    Disbursement.create h.service readings identity.id (request_uuid h request) key (input_of body)
    >>= λ result. pure (create_reply result.is_replay result.replay_response result.disbursement)

unfoldable pub get_by_id : DisbursementHandler → Request → Action Reply
get_by_id h request = path_id h request >>= λ id. Disbursement.get_by_id id >>= λ d.
    pure (success 200 false (disbursement (new_disbursement_response d)))

-- A status in capitals; the empty text is no status.
abbrev pub status_named : Text → DisbursementStatus
status_named s =
    if text_eq s (runes "PENDING")
    then pending
    else if text_eq s (runes "APPROVED")
    then approved
    else if text_eq s (runes "REJECTED")
    then rejected
    else other_status s

abbrev pub status_filter : Text → Option DisbursementStatus
status_filter s = if is_empty s then none else some (status_named (to_upper s))

abbrev pub date_error : Failure
date_error = domain (
    validation
      ((record { field = "date_range"; message = "format tanggal harus YYYY-MM-DD" }) ∷ []))

abbrev pub some_range : Result DateRange → Result (Option DateRange)
some_range (ok range) = ok (some range)
some_range (err e) = err e

abbrev pub range_of : Option ℕ → Option ℕ → Result (Option DateRange)
range_of (some from) (some to) = some_range (new_utc_date_range from to)
range_of _ _ = err date_error

-- Each end of the range stands in for the other where that is not given.
unfoldable pub date_range : (Text → Option ℕ) → Text → Text → Result (Option DateRange)
date_range parse from to =
    if is_empty from && is_empty to
    then ok none
    else range_of (parse (if is_empty from then to else from))
        (parse (if is_empty to then from else to))

unfoldable pub filter_of : ListDisbursementsQuery → Option DateRange → DisbursementFilter
filter_of query range = record {
  page = query.page;
  limit = query.limit;
  status = status_filter query.status;
  search = query.search;
  sort_by = query.sort_by;
  sort_order = query.sort_order;
  date_range = range;
}

unfoldable pub list : DisbursementHandler → Request → Action Reply
unfolding date_range
list h request =
    bound h.engine query_fields invalid_query (h.binder.query request.query) >>= λ query.
    lift (date_range h.binder.date query.date_from query.date_to) >>= λ range.
    Disbursement.list h.server (filter_of query range) >>= λ listed. pure (
      success 200 false (
        disbursements (map new_disbursement_response listed.0) (record {
          page = listed.1.page;
          limit = listed.1.limit;
          total = listed.1.total;
          total_pages = listed.1.total_pages;
        })))

unfoldable pub decision_of : ℕ → UpdateDisbursementStatusRequest → Decision
decision_of actor_id r = record {
  status = status_named (to_upper r.status);
  actor_id = actor_id;
  note = r.note;
}

unfoldable pub update_status :
    DisbursementHandler → Readings → Option UserIdentity → Request → Action Reply
update_status h readings caller request = with_identity caller λ identity.
    path_id h request >>= λ id.
    bound h.engine status_fields invalid_body (h.binder.status request.body) >>= λ body.
    Disbursement.update_status h.service readings identity.id (request_uuid h request) id
      (decision_of identity.id body)
    >>= λ updated. pure (success 200 false (disbursement (new_disbursement_response updated)))

unfoldable pub delete :
    DisbursementHandler → Readings → Option UserIdentity → Request → Action Reply
delete h readings caller request = with_identity caller λ identity. path_id h request >>= λ id.
    Disbursement.soft_delete h.service readings identity.id (request_uuid h request) id
    >> pure no_content
