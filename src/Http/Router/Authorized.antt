-- ===== src/Http/Router/Authorized.antt =====
-- internal/httpapi/router.go with its middleware: who reaches the handlers of disbursements.
use disbursment_api.Base.{
  ◌≡◌, refl, sym, true, false, ◌⊎◌, inl, inr, none, some, List, [], ◌∷◌, arith, Bool-cases,
  Option-cases,
}
use disbursment_api.Base.Text.{Text, runes, text_eq, text_eq_sound}
use disbursment_api.Domain.Errors.{unauthorized, forbidden, as_error}
use disbursment_api.Domain.KeyProvider.{Keys, new_static_key_provider}
use disbursment_api.Http.Handling.{Reply, Request, status_of_reply, respond}
use disbursment_api.Http.Router.{
  DisbursementEndpoint, create, list, get_by_id, update_status, delete, disbursement, App, Moment,
  allowed_roles, guarded, serve, dispatch, find_route, routes,
}
use disbursment_api.Middleware.Authentication.{Claims, bearer_token, authenticate, authenticated}
use disbursment_api.Middleware.Authentication.Genuine.{Signed, States, authenticate-genuine}
use disbursment_api.Middleware.RateLimit.{Limiter}
use disbursment_api.Middleware.Roles.{UserRole, UserIdentity, is_allowed, require_role}
use disbursment_api.Repository.World.{Env, World, ◌>>=◌, record_metric}
use disbursment_api.Response.{write_error, error_response}

-- The roles that the API grants each operation to.
abbrev pub MayUse : DisbursementEndpoint → UserRole → Type 0
MayUse create role =
    (role ≡ runes "OPERATOR") ⊎ (role ≡ runes "ADMIN") ⊎ (role ≡ runes "SUPERADMIN")
MayUse list role = (role ≡ runes "OPERATOR") ⊎ (role ≡ runes "ADMIN") ⊎ (role ≡ runes "SUPERADMIN")
MayUse get_by_id role =
    (role ≡ runes "OPERATOR") ⊎ (role ≡ runes "ADMIN") ⊎ (role ≡ runes "SUPERADMIN")
MayUse update_status role = (role ≡ runes "ADMIN") ⊎ (role ≡ runes "SUPERADMIN")
MayUse delete role = role ≡ runes "SUPERADMIN"

-- A token that a key of the provider has signed states a user whose role may use the endpoint.
pub record Authorized (app : App) (m : Moment) (endpoint : DisbursementEndpoint) (request : Request)
    (active : Text) (legacy : Keys) : Type 0 where
  pub identity : UserIdentity
  pub token : Text
  pub claims : Claims
  pub bearer : bearer_token request.authorization ≡ some token
  pub signed : Signed app.authenticator.jwt m.now active legacy token claims
  pub states : States app.authenticator claims identity
  pub role : MayUse endpoint identity.role

-- The answer is 401 or 403, the limiter is as before, and so is the database, which has not been asked.
pub record Refused (l : Limiter) (w : World) (result : Reply × (World × Limiter)) : Type 0 where
  pub status : (status_of_reply result.0 ≡ 401) ⊎ (status_of_reply result.0 ≡ 403)
  pub committed : result.1.0.committed ≡ w.committed
  pub view : result.1.0.view ≡ w.view
  pub step : result.1.0.step ≡ w.step
  pub limiter : result.1.1 ≡ l

abbrev OneOf : UserRole → List UserRole → Type 0
OneOf role [] = ⊥
OneOf role (r ∷ []) = role ≡ r
OneOf role (r ∷ s ∷ rs) = (role ≡ r) ⊎ OneOf role (s ∷ rs)

is_allowed-OneOf :
    (role : UserRole) (rs : List UserRole) → is_allowed role rs ≡ true → OneOf role rs
unfolding is_allowed
is_allowed-OneOf role [] h = absurd (ground (arith, h))
is_allowed-OneOf role (r ∷ []) h =
    let same : text_eq r role ≡ true = ground (arith, h) in sym (text_eq_sound r role same)
is_allowed-OneOf role (r ∷ s ∷ rs) h = elim (Bool-cases (text_eq r role)) [
  | inl same ↦ inl (sym (text_eq_sound r role same))
  | inr other ↦ inr (is_allowed-OneOf role (s ∷ rs) (rw other at h))
]

is_allowed-MayUse :
    (endpoint : DisbursementEndpoint) (role : UserRole)
    → is_allowed role (allowed_roles endpoint) ≡ true
    → MayUse endpoint role
unfolding allowed_roles
is_allowed-MayUse create role h = is_allowed-OneOf role _ h
is_allowed-MayUse list role h = is_allowed-OneOf role _ h
is_allowed-MayUse get_by_id role h = is_allowed-OneOf role _ h
is_allowed-MayUse update_status role h = is_allowed-OneOf role _ h
is_allowed-MayUse delete role h = is_allowed-OneOf role _ h

module _ (app : App) (m : Moment) (endpoint : DisbursementEndpoint) (request : Request)
    (l : Limiter) (env : Env) (w : World) where
  no_identity-Refused :
      authenticate app.authenticator m.now request.authorization ≡ none
      → Refused l w (serve app m (disbursement endpoint) request l env w)
  unfolding serve guarded respond authenticated ◌>>=◌ record_metric write_error error_response
      as_error unauthorized
  no_identity-Refused missing = rw missing (record {
    status = inl refl;
    committed = ground arith;
    view = ground arith;
    step = ground arith;
    limiter = refl;
  })

  wrong_role-Refused :
      (identity : UserIdentity)
      → authenticate app.authenticator m.now request.authorization ≡ some identity
      → is_allowed identity.role (allowed_roles endpoint) ≡ false
      → Refused l w (serve app m (disbursement endpoint) request l env w)
  unfolding serve guarded respond authenticated ◌>>=◌ write_error error_response as_error forbidden
      require_role
  wrong_role-Refused identity found wrong = rw found (
      rw wrong
        (record { status = inr refl; committed = refl; view = refl; step = refl; limiter = refl }))

  -- The chain of one endpoint lets an authorized request through, or refuses.
  serve-Authorized_or_Refused :
      (active_id active : Text) (legacy : Keys)
      → app.authenticator.key_provider ≡ some (new_static_key_provider active_id active legacy)
      → Authorized app m endpoint request active legacy
        ⊎ Refused l w (serve app m (disbursement endpoint) request l env w)
  serve-Authorized_or_Refused active_id active legacy provider =
      elim (Option-cases (authenticate app.authenticator m.now request.authorization)) [
        | inl missing ↦ inr (no_identity-Refused missing)
        | inr (identity, found) ↦
            elim (Bool-cases (is_allowed identity.role (allowed_roles endpoint))) [
              | inl right ↦
                  let (token, claims, bearer, signed, states) =
                    authenticate-genuine app.authenticator m.now request.authorization identity
                      active_id active legacy provider found in
                  inl (record {
                    identity = identity;
                    token = token;
                    claims = claims;
                    bearer = bearer;
                    signed = signed;
                    states = states;
                    role = is_allowed-MayUse endpoint identity.role right;
                  })
              | inr wrong ↦ inr (wrong_role-Refused identity found wrong)
            ]
      ]

-- Let a method and a pattern be routed to an operation on disbursements, and the app verify tokens with a
-- key provider. A request is refused with 401 or 403 before the database is asked and before the limiter
-- counts it, unless its bearer token is signed, with HS256, by a secret that is not empty and that the
-- provider was made with; issued by and for whom the app expects; and stating a user by id, name and
-- role whose role is granted the operation: any of the three to create, list and read, ADMIN or
-- SUPERADMIN to decide, SUPERADMIN to delete.
pub dispatch-Authorized_or_Refused :
    (app : App) (m : Moment) (endpoint : DisbursementEndpoint) (method pattern : Text)
    (request : Request) (l : Limiter) (env : Env) (w : World) (active_id active : Text)
    (legacy : Keys)
    → find_route method pattern routes ≡ some (disbursement endpoint)
    → app.authenticator.key_provider ≡ some (new_static_key_provider active_id active legacy)
    → Authorized app m endpoint request active legacy
      ⊎ Refused l w (dispatch app m method pattern request l env w)
unfolding dispatch
dispatch-Authorized_or_Refused app m endpoint method pattern request l env w active_id active legacy
      routed provider =
    rw routed
      (serve-Authorized_or_Refused app m endpoint request l env w active_id active legacy provider)
