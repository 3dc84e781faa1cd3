-- ===== src/Http/Router.antt =====
-- internal/httpapi/router.go: the routes, and the middleware in front of each handler. gin finds the
-- pattern of a path; a panic is answered by internal/httpapi/middleware/recovery.go.
pub mod Authorized
pub mod Telling
mod Handled
pub mod Trailing
use disbursment_api.Base.{
  ℕ, Bool, true, false, ◌&&◌, Option, none, some, List, [], ◌∷◌, ◌++◌, if◌then◌else◌,
}
use disbursment_api.Base.Text.{Text, runes, text_eq}
use disbursment_api.Failure.{DomainError, ErrorCode, Failure, domain, Result, ok, err}
use disbursment_api.Domain.Errors.{internal}
use disbursment_api.Http.Disbursements
use disbursment_api.Http.Disbursements.{DisbursementHandler}
use disbursment_api.Http.Handling.{Reply, error, Request, respond}
use disbursment_api.Http.Sessions
use disbursment_api.Http.Sessions.{AuthHandler}
use disbursment_api.Middleware.Authentication.{Authenticator, authenticated}
use disbursment_api.Middleware.RateLimit
use disbursment_api.Middleware.RateLimit.{Limiter, Verdict, allowed}
use disbursment_api.Middleware.Roles.{UserRole, UserIdentity, require_role}
use disbursment_api.Repository.World.{
  Action, Env, World, raise, lift, ◌>>=◌, ◌>>◌, record_metric, auth_failure, rate_limiter_eviction,
}
use disbursment_api.Response.{write_error, ErrorResponse}
use disbursment_api.Service.Auth.{AuthReadings}
use disbursment_api.Service.Disbursement.{Readings}

pub data AuthEndpoint : Type 0 where
  login refresh logout : AuthEndpoint

pub data DisbursementEndpoint : Type 0 where
  create list get_by_id update_status delete : DisbursementEndpoint

pub data Endpoint : Type 0 where
  auth : AuthEndpoint → Endpoint
  disbursement : DisbursementEndpoint → Endpoint

-- A method, a pattern, and what is registered for them.
pub record Route : Type 0 where
  pub method : Text
  pub pattern : Text
  pub endpoint : Endpoint

abbrev pub route : Text → Text → Endpoint → Route
route method pattern endpoint = record { method = method; pattern = pattern; endpoint = endpoint }

unfoldable pub auth_routes : Text → List Route
auth_routes prefix =
    route (runes "POST") (prefix ++ runes "/auth/login") (auth login)
    ∷ route (runes "POST") (prefix ++ runes "/auth/refresh") (auth refresh)
    ∷ route (runes "POST") (prefix ++ runes "/auth/logout") (auth logout)
    ∷ []

unfoldable pub disbursement_routes : Text → List Route
disbursement_routes prefix =
    route (runes "POST") prefix (disbursement create)
    ∷ route (runes "GET") prefix (disbursement list)
    ∷ route (runes "GET") (prefix ++ runes "/:id") (disbursement get_by_id)
    ∷ route (runes "PATCH") (prefix ++ runes "/:id/status") (disbursement update_status)
    ∷ route (runes "DELETE") (prefix ++ runes "/:id") (disbursement delete)
    ∷ []

unfoldable pub routes : List Route
unfolding auth_routes disbursement_routes
routes =
    auth_routes []
    ++ (auth_routes (runes "/api/v1")
        ++ (disbursement_routes (runes "/disbursements")
            ++ disbursement_routes (runes "/api/v1/disbursements")))

unfoldable pub find_route : Text → Text → List Route → Option Endpoint
find_route method pattern [] = none
find_route method pattern (r ∷ rs) =
    if text_eq r.method method && text_eq r.pattern pattern
    then some r.endpoint
    else find_route method pattern rs

abbrev pub role_operator : UserRole
role_operator = runes "OPERATOR"

abbrev pub role_admin : UserRole
role_admin = runes "ADMIN"

abbrev pub role_superadmin : UserRole
role_superadmin = runes "SUPERADMIN"

-- The roles that may pass to a handler of disbursements.
unfoldable pub allowed_roles : DisbursementEndpoint → List UserRole
allowed_roles create = role_operator ∷ role_admin ∷ role_superadmin ∷ []
allowed_roles list = role_operator ∷ role_admin ∷ role_superadmin ∷ []
allowed_roles get_by_id = role_operator ∷ role_admin ∷ role_superadmin ∷ []
allowed_roles update_status = role_admin ∷ role_superadmin ∷ []
allowed_roles delete = role_superadmin ∷ []

-- What a request reads from its surroundings.
pub record Moment : Type 0 where
  pub now : ℕ
  pub client_ip : Text
  pub readings : Readings
  pub auth_readings : AuthReadings

pub record App : Type 0 where
  pub auth_handler : AuthHandler
  pub disbursement_handler : DisbursementHandler
  pub authenticator : Authenticator
  pub collector : Bool

abbrev pub handler : App → Moment → DisbursementEndpoint → UserIdentity → Request → Action Reply
handler app m create identity request =
    Disbursements.create app.disbursement_handler m.readings (some identity) request
handler app m list identity request = Disbursements.list app.disbursement_handler request
handler app m get_by_id identity request = Disbursements.get_by_id app.disbursement_handler request
handler app m update_status identity request =
    Disbursements.update_status app.disbursement_handler m.readings (some identity) request
handler app m delete identity request =
    Disbursements.delete app.disbursement_handler m.readings (some identity) request

-- The group of disbursements: authentication, the role, then the handler.
unfoldable pub guarded : App → Moment → DisbursementEndpoint → Request → Action Reply
guarded app m endpoint request =
    authenticated app.authenticator m.now request.authorization >>= λ identity.
    lift (require_role (allowed_roles endpoint) (some identity)) >>= λ admitted.
    handler app m endpoint admitted request

abbrev pub too_many_requests : Failure
too_many_requests = domain (record {
  code = ErrorCode.too_many_requests;
  message = "Terlalu banyak percobaan, silakan coba beberapa saat lagi";
  status = 429;
  details = [];
  retry_after = 0;
})

-- `Retry-After: 60` is set before the error is written.
abbrev pub refused_reply : Text → Reply
refused_reply request_id =
    error (record (write_error request_id too_many_requests) { retry_after_seconds = some 60 })

abbrev pub limited :
    App
    → Limiter
    → Option (Verdict × Limiter)
    → Request
    → Action Reply
    → Env
    → World
    → Reply × (World × Limiter)
limited app l none request action env w =
    (error (write_error request.request_id (domain internal)), (w, l))
limited app l (some (Verdict.too_many_requests, l')) request action env w = (
  refused_reply request.request_id,
  ((record_metric app.collector (auth_failure "rate_limited") env w).1, l'),
)
limited app l (some (allowed was_evicted, l')) request action env w =
    let (reply, w') =
      respond request.request_id action env
        (record_metric (app.collector && was_evicted) rate_limiter_eviction env w).1 in
    (reply, (w', l'))

abbrev pub free : Limiter → Reply × World → Reply × (World × Limiter)
free l (reply, w) = (reply, (w, l))

-- The chain of an endpoint. The login and the refresh share one limiter.
unfoldable pub serve :
    App → Moment → Endpoint → Request → Limiter → Env → World → Reply × (World × Limiter)
serve app m (auth login) request l env w =
    limited app l (RateLimit.request m.client_ip m.now l) request
      (Sessions.login app.auth_handler m.auth_readings request) env w
serve app m (auth refresh) request l env w =
    limited app l (RateLimit.request m.client_ip m.now l) request
      (Sessions.refresh app.auth_handler m.auth_readings request) env w
serve app m (auth logout) request l env w =
    free l
      (respond request.request_id (Sessions.logout app.auth_handler m.auth_readings request) env w)
serve app m (disbursement endpoint) request l env w =
    free l (respond request.request_id (guarded app m endpoint request) env w)

abbrev pub not_routed : Failure
not_routed = domain (record {
  code = ErrorCode.disbursement_not_found;
  message = "Resource tidak ditemukan";
  status = 404;
  details = [];
  retry_after = 0;
})

abbrev pub served :
    App → Moment → Option Endpoint → Request → Limiter → Env → World → Reply × (World × Limiter)
served app m none request l env w = (error (write_error request.request_id not_routed), (w, l))
served app m (some endpoint) request l env w = serve app m endpoint request l env w

-- A request by its method and the pattern of its path.
unfoldable pub dispatch :
    App → Moment → Text → Text → Request → Limiter → Env → World → Reply × (World × Limiter)
unfolding find_route serve
dispatch app m method pattern request l env w =
    served app m (find_route method pattern routes) request l env w
