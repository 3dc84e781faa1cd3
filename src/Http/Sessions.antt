-- ===== src/Http/Sessions.antt =====
-- internal/httpapi/auth_handler.go.
use disbursment_api.Base.{false}
use disbursment_api.Http.Dto.{login_fields, refresh_fields}
use disbursment_api.Http.Handling.{
  Reply, success, no_content, tokens, Request, Binder, invalid_body, bound,
}
use disbursment_api.Http.Validation.{Engine}
use disbursment_api.Repository.World.{Action, pure, ◌>>=◌, ◌>>◌}
use disbursment_api.Service.Auth
use disbursment_api.Service.Auth.{Auth, AuthReadings}

pub record AuthHandler : Type 0 where
  pub auth : Auth
  pub engine : Engine
  pub binder : Binder

unfoldable pub login : AuthHandler → AuthReadings → Request → Action Reply
login h r request =
    bound h.engine login_fields invalid_body (h.binder.login request.body) >>= λ body.
    Auth.login h.auth r body.username body.password >>= λ response.
    pure (success 200 false (tokens response))

-- A body with a refresh token is bound for both `Refresh` and `Logout`.
unfoldable pub refresh : AuthHandler → AuthReadings → Request → Action Reply
refresh h r request =
    bound h.engine refresh_fields invalid_body (h.binder.refresh request.body) >>= λ body.
    Auth.refresh h.auth r body.refresh_token >>= λ response.
    pure (success 200 false (tokens response))

unfoldable pub logout : AuthHandler → AuthReadings → Request → Action Reply
logout h r request =
    bound h.engine refresh_fields invalid_body (h.binder.refresh request.body) >>= λ body.
    Auth.logout h.auth r body.refresh_token >> pure no_content
