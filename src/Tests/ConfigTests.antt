-- ===== src/Tests/ConfigTests.antt =====
-- Concrete environments: internal/config/config.go, internal/app/app.go and cmd/api/main.go.
use Prim.Native.String.{String}
use disbursment_api.Base.{
  ◌≡◌, ◌↔◌, refl, true, false, List, [], ◌∷◌, Option, none, some, if◌then◌else◌,
}
use disbursment_api.Base.Int.{ℤ, pos, ltb_ℤ}
use disbursment_api.Base.Text.{
  Text, runes, text_eq, trim_left, trim_right, trim_space, is_space, byte_len,
}
use disbursment_api.Domain.KeyProvider.{lookup, insert, active_key, get_key, all_keys}
use disbursment_api.Domain.KeyProvider.Held.{AllSecrets}
use disbursment_api.Config.Reading.{
  rejected, accepted, invalid_audit, ◌>>=◌, Parsers, Environment, string_value, required,
  read_duration, read_int, database_url, split, cut,
}
use disbursment_api.Config.Loading.{
  Config, seconds, trusted_proxies_of, put_pairs, legacy_keys_of, validate_trusted_proxy,
  validate_proxies, validate, read_http, read_database, read_security, read_idempotency, read_audit,
  validated, load, validate_legacy, validate_secret_strength,
}
use disbursment_api.Config.Sound.{IsValid}
use disbursment_api.Config.Valid.{load-IsValid}
use disbursment_api.Config.Secrets.{
  key_provider_of, Strong, validate_secret_strength-Strong, load-rotated,
}
use disbursment_api.App.{Libraries, new, shutdown_failed, main}
use disbursment_api.App.Starting.{is_ready, new-ready_iff}
use disbursment_api.App.Exiting.{Clean, main-Clean}

abbrev variable : List (String × String) → Text → Text
variable [] name = []
variable ((key, value) ∷ more) name =
    if text_eq (runes key) name then runes value else variable more name

abbrev environment : List (String × String) → Environment
environment variables name = variable variables (runes name)

abbrev minutes : Text → Option ℤ
minutes s =
    if text_eq s (runes "20m")
    then some (seconds 1200)
    else if text_eq s (runes "1m")
    then some (seconds 60)
    else none

abbrev sample_parsers : Parsers
sample_parsers = record {
  duration = minutes;
  integer = λ s. if text_eq s (runes "5") then some (pos 5) else none;
  url = λ s. some (record { scheme = runes "postgres"; host = runes "db" });
  is_ip = λ s. text_eq s (runes "10.0.0.1");
  cidr = λ s. if text_eq s (runes "10.0.0.0/8") then some (8, 32) else none;
}

abbrev given : List (String × String)
given =
    ("DATABASE_URL", " postgres://db/api ")
    ∷ ("JWT_SECRET", "a-secret-of-thirty-two-characters")
    ∷ ("METRICS_TOKEN", "a-token-with-thirty-two-characters")
    ∷ ("JWT_KEY_ID", "v2")
    ∷ ("HTTP_TRUSTED_PROXIES", "10.0.0.1, ,10.0.0.0/8")
    ∷ ("DB_MAX_IDLE_CONNS", "5")
    ∷ []

abbrev old_secret : String
old_secret = "the-secret-of-the-time-before-this"

abbrev legacy_given : String × String
legacy_given = ("JWT_LEGACY_KEYS", "v1:the-secret-of-the-time-before-this")

abbrev loaded : Config
loaded = record {
  http = record {
    address = runes ":8080";
    read_timeout = seconds 10;
    write_timeout = seconds 15;
    idle_timeout = seconds 60;
    shutdown_timeout = seconds 10;
    max_request_body_bytes = pos 1048576;
    metrics_token = runes "a-token-with-thirty-two-characters";
    trusted_proxies = runes "10.0.0.1" ∷ runes "10.0.0.0/8" ∷ [];
  };
  database = record {
    url = runes "postgres://db/api";
    max_open_connections = pos 20;
    max_idle_connections = pos 5;
    connection_max_lifetime = seconds 1800;
  };
  security = record {
    jwt_secret = runes "a-secret-of-thirty-two-characters";
    jwt_key_id = runes "v2";
    jwt_legacy_keys = (runes "v1", runes old_secret) ∷ [];
    jwt_issuer = runes "disbursement-api";
    jwt_audience = runes "disbursement-api-users";
    access_token_ttl = seconds 900;
    refresh_token_ttl = seconds 604800;
  };
  idempotency = record { lease_ttl = seconds 30; replay_ttl = seconds 86400 };
  audit = record {
    outbox_retention = seconds 2592000;
    warning_age = seconds 300;
    critical_age = seconds 1200;
    reconciliation_interval = seconds 900;
    outbox_batch_size = pos 50;
    relay_interval = seconds 5;
  };
}

abbrev sample_environment : Environment
sample_environment = environment (("AUDIT_CRITICAL_AGE", "20m") ∷ legacy_given ∷ given)

loads : load sample_parsers sample_environment ≡ accepted loaded
unfolding load ◌>>=◌ database_url required string_value legacy_keys_of split put_pairs cut insert
    read_http read_database read_security read_idempotency read_audit read_duration read_int
    trusted_proxies_of validated validate validate_proxies validate_trusted_proxy trim_space
    trim_left trim_right is_space text_eq
loads = refl

-- The critical age may not be below the warning age.
critical_too_soon :
    load sample_parsers (environment (("AUDIT_CRITICAL_AGE", "1m") ∷ given))
    ≡ rejected invalid_audit
unfolding load ◌>>=◌ database_url required string_value legacy_keys_of split put_pairs cut insert
    read_http read_database read_security read_idempotency read_audit read_duration read_int
    trusted_proxies_of validated validate validate_proxies validate_trusted_proxy trim_space
    trim_left trim_right is_space text_eq
critical_too_soon = refl

load-IsValid_example : IsValid sample_parsers loaded
load-IsValid_example = load-IsValid sample_parsers sample_environment loaded loads

loaded_secrets : validate_secret_strength loaded ≡ accepted tt
unfolding validate_secret_strength validate_legacy ◌>>=◌ byte_len
loaded_secrets = refl

validate_secret_strength-Strong_example :
    ((id secret : Text) → get_key (key_provider_of loaded) id ≡ some secret → Strong secret)
    × AllSecrets Strong (all_keys (key_provider_of loaded))
    × Strong loaded.http.metrics_token
validate_secret_strength-Strong_example = validate_secret_strength-Strong loaded loaded_secrets

-- The configuration before the key was changed.
abbrev before : Config
before = record loaded {
  security = record loaded.security {
    jwt_secret = runes old_secret;
    jwt_key_id = runes "v1";
    jwt_legacy_keys = [];
  };
}

old_key_listed :
    lookup before.security.jwt_key_id loaded.security.jwt_legacy_keys
    ≡ some before.security.jwt_secret
unfolding lookup text_eq
old_key_listed = refl

load-rotated_example :
    get_key (key_provider_of loaded) (active_key (key_provider_of before)).0
    ≡ some (active_key (key_provider_of before)).1
load-rotated_example =
    load-rotated sample_parsers sample_environment before loaded loads old_key_listed

abbrev working : Libraries
working = record { opens = true; pings = true; validates = true; trusts = λ proxies. true }

new-ready_iff_example :
    (is_ready (new working loaded 0).0 ≡ true) ↔ (ltb_ℤ (seconds 30) (seconds 86400) ≡ true)
new-ready_iff_example =
    new-ready_iff sample_parsers sample_environment working loaded 0 loads loaded_secrets refl refl
      refl refl

main-Clean_example :
    Clean 3 (main sample_parsers working sample_environment (shutdown_failed false) true 3)
main-Clean_example =
    main-Clean (shutdown_failed false) true 3 sample_parsers working sample_environment
