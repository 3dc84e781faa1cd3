-- ===== src/Tests/HttpTests.antt =====
-- Theorems on internal/httpapi, with the services behind it, at concrete inputs.
use disbursment_api.Http.Router.Trailing.{dispatch-Audited}
use disbursment_api.Service.Disbursement.Trail.{Audited}
use disbursment_api.Tests.ServiceTests.{sample_tables-Audited}
use disbursment_api.Base.{ℕ, ◌==◌, ◌≡◌, ◌⊎◌, refl, true, Option, none, some, [], ◌∷◌, if◌then◌else◌}
use disbursment_api.Base.Text.{Text, runes, text_eq, trim_space, to_upper}
use disbursment_api.Domain.KeyProvider.{new_static_key_provider, get_key}
use disbursment_api.Http.Handling.{Request, Binder}
use disbursment_api.Http.Router.{App, Moment, delete, dispatch, find_route, routes}
use disbursment_api.Http.Router.Authorized.{Authorized, Refused, dispatch-Authorized_or_Refused}
use disbursment_api.Http.Validation.{Engine, passed}
use disbursment_api.Middleware.Authentication.{
  Parsed, valid_token, invalid_token, key_id, Jwt, Authenticator, authenticate,
}
use disbursment_api.Middleware.Authentication.Accepting.{
  Honours, Wired, claims_for, map_claims, generate_access_token-authenticate,
}
use disbursment_api.Middleware.RateLimit.{Limiter}
use disbursment_api.Middleware.Roles.{role_valid}
use disbursment_api.Service.Auth.{Auth, generate_access_token}
use disbursment_api.Tests.Samples.{
  sample_auth, sample_auth_readings, sample_user, sample_readings, sample_service, sample_server,
  sample_env, sample_world, sample_tables,
}
use disbursment_api.Base.Int.{pos}
use disbursment_api.App.Running.{quiet, after, requested, relayed, Draws, Ledger, Runs-Ledger}
use disbursment_api.Http.Router.Telling.{tells_of}
use disbursment_api.Service.Disbursement.{created_action, approved_action}
use disbursment_api.Service.Relay.Logged.{HasLog}
use disbursment_api.Service.Relay.Worker.{cleanup_tick, work}
use disbursment_api.Repository.World.{World}
use disbursment_api.Tests.Samples

abbrev minute_auth : Auth
minute_auth = record sample_auth { access_token_ttl = 60000000000 }

abbrev uuid_text : ℕ → Text
uuid_text id = id ∷ []

abbrev first_rune : Text → Option ℕ
first_rune [] = none
first_rune (c ∷ s) = some c

-- A library that knows one token, signed by `minute_auth` for the sample user at time 200.
abbrev checked_by : Option Text → Parsed
checked_by none = invalid_token
checked_by (some secret) =
    if text_eq secret (runes "secret")
    then valid_token (map_claims uuid_text (claims_for minute_auth sample_user 200))
    else invalid_token

abbrev sample_jwt : Jwt
sample_jwt = record {
  header = λ token. some (key_id (runes "v1"));
  parse = λ key now token. checked_by (key (runes "HS256"));
}

abbrev sample_authenticator : Authenticator
sample_authenticator = record {
  key_provider = some (new_static_key_provider (runes "v1") (runes "secret") []);
  expected_issuer = runes "disbursement-api";
  expected_audience = runes "disbursement-api-users";
  collector = true;
  jwt = sample_jwt;
  parse_uuid = first_rune;
}

sample-Wired :
    Wired minute_auth sample_authenticator
      (new_static_key_provider (runes "v1") (runes "secret") [])
unfolding get_key new_static_key_provider text_eq
sample-Wired = record { provider = refl; key = refl; issuer = refl; audience = refl }

sample-Honours :
    Honours sample_jwt uuid_text
      (runes "v1")
      (runes "secret")
      (claims_for minute_auth sample_user 200)
      (runes "signed")
unfolding trim_space text_eq
sample-Honours = record {
  header = refl;
  compact = (refl, refl);
  verified = λ key now given fresh. rw given refl;
}

-- A second after it was signed.
generate_access_token-authenticate_example :
    authenticate sample_authenticator 1000000200 (runes "Bearer signed")
    ≡ some (record { id = 7; username = runes "ani"; role = runes "ADMIN" })
unfolding generate_access_token trim_space role_valid text_eq
generate_access_token-authenticate_example =
    generate_access_token-authenticate minute_auth sample_authenticator
      (new_static_key_provider (runes "v1") (runes "secret") []) uuid_text sample_user 200
      1000000200 (runes "signed") sample-Wired (λ signed. sample-Honours) refl refl refl refl refl

abbrev sample_binder : Binder
sample_binder = record {
  login = λ body. none;
  refresh = λ body. none;
  create = λ body. none;
  status = λ body. some (record { status = runes "approved"; note = [] });
  query = λ query. none;
  date = λ s. none;
  uuid = first_rune;
}

abbrev sample_engine : Engine
sample_engine = record { check_struct = λ maxchars fields. passed }

abbrev sample_app : App
sample_app = record {
  auth_handler = record { auth = minute_auth; engine = sample_engine; binder = sample_binder };
  disbursement_handler = record {
    service = sample_service;
    server = sample_server;
    engine = sample_engine;
    binder = sample_binder;
    new_id = 9;
  };
  authenticator = sample_authenticator;
  collector = true;
}

abbrev sample_moment : Moment
sample_moment = record {
  now = 1000000200;
  client_ip = runes "192.0.2.44";
  readings = sample_readings;
  auth_readings = sample_auth_readings;
}

-- An administrator asks for a deletion.
abbrev sample_request : Request
sample_request = record {
  request_id = runes "r";
  authorization = runes "Bearer signed";
  idempotency_key = [];
  id = 1 ∷ [];
  body = [];
  query = [];
}

abbrev empty_limiter : Limiter
empty_limiter = record { requests = []; limit = 10; window = 60000000000; cleanup_after = 0 }

dispatch-Authorized_or_Refused_example :
    Authorized sample_app sample_moment delete sample_request (runes "secret") []
    ⊎ Refused empty_limiter sample_world (
        dispatch sample_app sample_moment
          (runes "DELETE")
          (runes "/disbursements/:id")
          sample_request
          empty_limiter
          sample_env
          sample_world)
unfolding find_route routes text_eq
dispatch-Authorized_or_Refused_example =
    dispatch-Authorized_or_Refused sample_app sample_moment delete (runes "DELETE")
      (runes "/disbursements/:id") sample_request empty_limiter sample_env sample_world (runes "v1")
      (runes "secret") [] refl refl

dispatch-Audited_example :
    Audited
      (dispatch sample_app sample_moment
        (runes "DELETE")
        (runes "/disbursements/:id")
        sample_request
        empty_limiter
        sample_env
        sample_world).1.0.committed
dispatch-Audited_example =
    dispatch-Audited sample_env (λ n t h. h) sample_app sample_moment sample_request empty_limiter
      sample_world sample_tables-Audited (runes "DELETE") (runes "/disbursements/:id")

-- The worker moves the event of the creation to the log and cleans up; then the administrator approves.
abbrev relayed_world : World
relayed_world =
    (work Samples.sample_relay (pos 10) (λ turn. Samples.sample_moment) 300 (cleanup_tick 5000 ∷ [])
      sample_env sample_world).1

abbrev sample_drawn : ℕ → ℕ × Text
sample_drawn event_id = if event_id == 21 then (1, created_action) else (1, approved_action)

sample-Draws :
    Draws sample_drawn sample_app sample_moment
      (runes "PATCH")
      (runes "/disbursements/:id/status")
      sample_request
unfolding find_route routes text_eq tells_of to_upper
sample-Draws id action told = cc told

sample_Ledger : Ledger sample_drawn sample_tables
sample_Ledger = record {
  audited = sample_tables-Audited;
  rows_say = (refl, tt);
  logs_say = tt;
  delivered_logged = (refl, tt);
}

Runs-Ledger_example :
    Ledger sample_drawn
      (dispatch sample_app sample_moment
        (runes "PATCH")
        (runes "/disbursements/:id/status")
        sample_request
        empty_limiter
        sample_env
        relayed_world).1.0.committed
    × ((event_id : ℕ)
        → HasLog event_id sample_tables
        → HasLog event_id
            (dispatch sample_app sample_moment
              (runes "PATCH")
              (runes "/disbursements/:id/status")
              sample_request
              empty_limiter
              sample_env
              relayed_world).1.0.committed)
Runs-Ledger_example =
    Runs-Ledger sample_drawn
      (after
        (relayed sample_env (λ n t. quiet t) Samples.sample_relay (pos 10)
          (λ turn. Samples.sample_moment) 300 (cleanup_tick 5000 ∷ []) sample_world)
        (requested sample_env (λ n t. quiet t) sample_app sample_moment (runes "PATCH")
          (runes "/disbursements/:id/status") sample_request empty_limiter relayed_world
          sample-Draws))
      sample_Ledger
