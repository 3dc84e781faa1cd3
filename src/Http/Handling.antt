-- ===== src/Http/Handling.antt =====
-- internal/httpapi/response/response.go and internal/httpapi/binding of gin, as the handlers use them:
-- a handler ends with a reply or with an error, which is written by `WriteError`.
use disbursment_api.Base.{ℕ, Bool, Option, none, some, List, [], ◌∷◌}
use disbursment_api.Base.Int.{ℤ}
use disbursment_api.Base.Text.{Text}
use disbursment_api.Failure.{Failure, FieldError, domain, Result, ok, err}
use disbursment_api.Domain.Errors.{validation}
use disbursment_api.Http.Dto.{
  LoginRequest, RefreshRequest, CreateDisbursementRequest, UpdateDisbursementStatusRequest,
  ListDisbursementsQuery, DisbursementResponse,
}
use disbursment_api.Http.Validation.{Engine, Field, validate}
use disbursment_api.Repository.World.{Action, Env, World, pure, raise, ◌>>=◌}
use disbursment_api.Response.{ErrorResponse, write_error}
use disbursment_api.Service.Auth.{TokenResponse}

pub record Meta : Type 0 where
  pub page : ℤ
  pub limit : ℤ
  pub total : ℤ
  pub total_pages : ℤ

-- What is written as JSON.
pub data Payload : Type 0 where
  disbursement : DisbursementResponse → Payload
  disbursements : List DisbursementResponse → Meta → Payload
  tokens : TokenResponse → Payload
  raw_json : Text → Payload

-- `WriteSuccess`, with whether X-Idempotent-Replayed is set; `WriteNoContent`; and `WriteError`.
pub data Reply : Type 0 where
  success : ℕ → Bool → Payload → Reply
  no_content : Reply
  error : ErrorResponse → Reply

abbrev pub status_of_reply : Reply → ℕ
status_of_reply (success status replayed payload) = status
status_of_reply no_content = 204
status_of_reply (error e) = e.status

-- What a handler reads of a request: its id, the headers, the id in the path, the body and the query.
pub record Request : Type 0 where
  pub request_id : Text
  pub authorization : Text
  pub idempotency_key : Text
  pub id : Text
  pub body : Text
  pub query : Text

-- gin's binding of a body or a query, with `none` for its error; time.Parse of a date; uuid.Parse.
pub record Binder : Type 0 where
  pub login : Text → Option LoginRequest
  pub refresh : Text → Option RefreshRequest
  pub create : Text → Option CreateDisbursementRequest
  pub status : Text → Option UpdateDisbursementStatusRequest
  pub query : Text → Option ListDisbursementsQuery
  pub date : Text → Option ℕ
  pub uuid : Text → Option ℕ

abbrev pub invalid_body : Failure
invalid_body =
    domain (validation ((record { field = "body"; message = "format JSON tidak valid" }) ∷ []))

abbrev pub invalid_query : Failure
invalid_query =
    domain (validation ((record { field = "query"; message = "parameter query tidak valid" }) ∷ []))

abbrev pub required_or : {A : Type 0} → Failure → Option A → Action A
required_or e none = raise e
required_or e (some a) = pure a

abbrev pub if_valid : {A : Type 0} → List FieldError → A → Action A
if_valid [] a = pure a
if_valid (detail ∷ details) a = raise (domain (validation (detail ∷ details)))

-- Binding, then validation.
unfoldable pub bound : {A : Type 0} → Engine → (A → List Field) → Failure → Option A → Action A
bound engine fields e o = required_or e o >>= λ a. if_valid (validate engine (fields a)) a

abbrev pub written : Text → Result Reply × World → Reply × World
written request_id (ok reply, w) = (reply, w)
written request_id (err e, w) = (error (write_error request_id e), w)

unfoldable pub respond : Text → Action Reply → Env → World → Reply × World
respond request_id handler env w = written request_id (handler env w)
