-- ===== src/App.antt =====
-- internal/app/app.go, internal/database/database.go and cmd/api/main.go: a process from its environment
-- to its exit. Pools of database connections are counted while they are open.
pub mod Starting
pub mod Exiting
pub mod Running
use disbursment_api.Base.{
  ℕ, suc, ◌-◌, Bool, true, false, ◌||◌, Option, none, some, List, [], if◌then◌else◌,
}
use disbursment_api.Base.Int.{ℤ, pos, leb_ℤ}
use disbursment_api.Base.Text.{Text, runes, is_empty}
use disbursment_api.Domain.KeyProvider.{StaticKeyProvider, active_key}
use disbursment_api.Config.Reading.{Rejection, Outcome, rejected, accepted, Parsers, Environment}
use disbursment_api.Config.Loading.{Config, AuditConfig, load, validate_secret_strength}
use disbursment_api.Config.Secrets.{key_provider_of}
use disbursment_api.Service.Relay.Worker.{Worker, start_worker, stop_worker}

pub data StartError : Type 0 where
  configuration : Rejection → StartError
  open_failed ping_failed coordinator_invalid secret_empty validator_failed : StartError
  router_failed : StartError

pub data Startup (A : Type 0) : Type 0 where
  failed : StartError → Startup A
  ready : A → Startup A

-- Whether sqlx.Open, the first ping and the registration of the validation work, and which proxies gin
-- takes as trusted.
pub record Libraries : Type 0 where
  pub opens : Bool
  pub pings : Bool
  pub validates : Bool
  pub trusts : List Text → Bool

-- `database.Open`, which closes the pool that it cannot ping.
unfoldable pub open_database : Libraries → ℕ → Startup (Unit {0}) × ℕ
open_database l pools =
    if l.opens
    then if l.pings then (ready tt, suc pools) else (failed ping_failed, suc pools - 1)
    else (failed open_failed, pools)

pub record Coordinator : Type 0 where
  pub lease_ttl : ℤ
  pub replay_ttl : ℤ

-- `NewCoordinator` with a store, a clock and a generator.
unfoldable pub new_coordinator : ℤ → ℤ → Startup Coordinator
new_coordinator lease_ttl replay_ttl =
    if leb_ℤ lease_ttl (pos 0) || leb_ℤ replay_ttl lease_ttl
    then failed coordinator_invalid
    else ready (record { lease_ttl = lease_ttl; replay_ttl = replay_ttl })

pub record AuthService : Type 0 where
  pub key_provider : StaticKeyProvider
  pub jwt_issuer : Text
  pub jwt_audience : Text
  pub access_token_ttl : ℤ
  pub refresh_token_ttl : ℤ

abbrev text_or : Text → Text → Text
text_or fallback s = if is_empty s then fallback else s

-- `NewServiceWithKeyProvider` with its stores.
unfoldable pub new_auth_service : StaticKeyProvider → Text → Text → ℤ → ℤ → Startup AuthService
new_auth_service keys issuer audience access_ttl refresh_ttl =
    if is_empty (active_key keys).1
    then failed secret_empty
    else ready (record {
      key_provider = keys;
      jwt_issuer = text_or (runes "disbursement-api") issuer;
      jwt_audience = text_or (runes "disbursement-api-users") audience;
      access_token_ttl = access_ttl;
      refresh_token_ttl = refresh_ttl;
    })

pub record Application : Type 0 where
  pub coordinator : Coordinator
  pub auth_service : AuthService
  pub audit : AuditConfig
  pub max_request_body_bytes : ℤ
  pub metrics_token : Text
  pub shutdown_timeout : ℤ

-- An error after the pool was opened closes it.
unfoldable pub closing : {A B : Type 0} → ℕ → Startup A → (A → Startup B × ℕ) → Startup B × ℕ
closing pools (failed e) k = (failed e, pools - 1)
closing pools (ready a) k = k a

abbrev pub provided : Bool → StartError → Startup (Unit {0})
provided true e = ready tt
provided false e = failed e

-- What `New` does with the database that it has opened.
unfoldable pub assemble : Libraries → Config → Startup (Unit {0}) × ℕ → Startup Application × ℕ
unfolding closing new_coordinator new_auth_service
assemble l c (failed e, pools) = (failed e, pools)
assemble l c (ready u, pools) =
    closing pools (new_coordinator c.idempotency.lease_ttl c.idempotency.replay_ttl) (λ coordinator.
      closing pools
        (new_auth_service (key_provider_of c) c.security.jwt_issuer c.security.jwt_audience
          c.security.access_token_ttl c.security.refresh_token_ttl)
        (λ auth. closing pools (provided l.validates validator_failed) (λ v.
          closing pools (provided (l.trusts c.http.trusted_proxies) router_failed) (λ r. (
            ready (record {
              coordinator = coordinator;
              auth_service = auth;
              audit = c.audit;
              max_request_body_bytes = c.http.max_request_body_bytes;
              metrics_token = c.http.metrics_token;
              shutdown_timeout = c.http.shutdown_timeout;
            }),
            pools,
          )))))

abbrev pub if_strong : Libraries → Config → ℕ → Outcome (Unit {0}) → Startup Application × ℕ
if_strong l c pools (rejected e) = (failed (configuration e), pools)
if_strong l c pools (accepted u) = assemble l c (open_database l pools)

unfoldable pub new : Libraries → Config → ℕ → Startup Application × ℕ
unfolding assemble open_database
new l c pools = if_strong l c pools (validate_secret_strength c)

-- What ends `Run`: its context, with a shutdown that works or not, or the server.
pub data Ending : Type 0 where
  shut_down : Ending
  shutdown_failed : Bool → Ending
  server_closed server_failed : Ending

-- Whether main exits with an error: not for an error that is context.Canceled.
abbrev pub is_error : Ending → Bool
is_error shut_down = false
is_error (shutdown_failed is_canceled) = if is_canceled then false else true
is_error server_closed = false
is_error server_failed = true

-- The exit code, the open pools, and the relay's worker, or `none` after a panic.
pub record Exit : Type 0 where
  pub code : ℕ
  pub pools : ℕ
  pub worker : Option Worker

abbrev code_of : Bool → ℕ
code_of error = if error then 1 else 0

abbrev pub stop_again : Option Worker → Option Worker
stop_again none = none
stop_again (some w) = stop_worker w

-- `StopWorker`, before which the worker may have stopped itself since its context is done.
abbrev pub stop_finally : Bool → Worker → Option Worker
stop_finally stopped_itself w = if stopped_itself then stop_again (stop_worker w) else stop_worker w

abbrev pub run_started : Ending → Bool → ℕ → Worker → Option Worker → Exit
run_started ending stopped_itself pools w none = record {
  code = 1;
  pools = pools - 1;
  worker = some w;
}
run_started ending stopped_itself pools w (some running) = record {
  code = code_of (is_error ending);
  pools = pools - 1;
  worker = stop_finally stopped_itself running;
}

-- `Run`: its deferred calls stop the worker and close the pool.
unfoldable pub run : Ending → Bool → ℕ → Worker → Exit
run ending stopped_itself pools w = run_started ending stopped_itself pools w (start_worker w)

abbrev pub new_worker : Worker
new_worker = record { running = false; current = 0; stop_closed = λ i. false }

abbrev pub if_ready : Ending → Bool → Startup Application × ℕ → Exit
if_ready ending stopped_itself (failed e, pools) = record {
  code = 1;
  pools = pools;
  worker = some new_worker;
}
if_ready ending stopped_itself (ready a, pools) = run ending stopped_itself pools new_worker

abbrev pub if_loaded : Libraries → Ending → Bool → ℕ → Outcome Config → Exit
if_loaded l ending stopped_itself pools (rejected e) = record {
  code = 1;
  pools = pools;
  worker = some new_worker;
}
if_loaded l ending stopped_itself pools (accepted c) =
    if_ready ending stopped_itself (new l c pools)

unfoldable pub main : Parsers → Libraries → Environment → Ending → Bool → ℕ → Exit
unfolding new run
main parsers l env ending stopped_itself pools =
    if_loaded l ending stopped_itself pools (load parsers env)
