-- ===== src/Config/Loading.antt =====
-- internal/config/config.go: the configuration, its loading and its validation.
use disbursment_api.Base.{
  ℕ, ◌*◌, Bool, true, false, ◌&&◌, ◌||◌, Option, none, some, List, [], ◌∷◌, ltb, ◌==◌,
  if◌then◌else◌,
}
use disbursment_api.Base.Int.{ℤ, pos, leb_ℤ, ltb_ℤ}
use disbursment_api.Base.Text.{Text, runes, is_empty, text_eq, byte_len, trim_space}
use disbursment_api.Domain.KeyProvider.{Keys, insert}
use disbursment_api.Config.Reading.{
  Rejection, empty_address, empty_token, empty_proxy, invalid_pool, body_not_positive,
  ttl_not_positive, invalid_audit, malformed_pair, has_active_key, invalid_proxy, proxy_of_all,
  short_legacy_secret, short_secret, short_token, Outcome, rejected, accepted, ◌>>=◌, ◌>>◌, pure,
  Parsers, Environment, string_value, required, read_duration, read_int, database_url, split, cut,
}

pub record HttpConfig : Type 0 where
  pub address : Text
  pub read_timeout : ℤ
  pub write_timeout : ℤ
  pub idle_timeout : ℤ
  pub shutdown_timeout : ℤ
  pub max_request_body_bytes : ℤ
  pub metrics_token : Text
  pub trusted_proxies : List Text

pub record DatabaseConfig : Type 0 where
  pub url : Text
  pub max_open_connections : ℤ
  pub max_idle_connections : ℤ
  pub connection_max_lifetime : ℤ

pub record SecurityConfig : Type 0 where
  pub jwt_secret : Text
  pub jwt_key_id : Text
  pub jwt_legacy_keys : Keys
  pub jwt_issuer : Text
  pub jwt_audience : Text
  pub access_token_ttl : ℤ
  pub refresh_token_ttl : ℤ

pub record IdempotencyConfig : Type 0 where
  pub lease_ttl : ℤ
  pub replay_ttl : ℤ

pub record AuditConfig : Type 0 where
  pub outbox_retention : ℤ
  pub warning_age : ℤ
  pub critical_age : ℤ
  pub reconciliation_interval : ℤ
  pub outbox_batch_size : ℤ
  pub relay_interval : ℤ

pub record Config : Type 0 where
  pub http : HttpConfig
  pub database : DatabaseConfig
  pub security : SecurityConfig
  pub idempotency : IdempotencyConfig
  pub audit : AuditConfig

-- Nanoseconds.
abbrev pub seconds : ℕ → ℤ
seconds n = pos (1000000000 * n)

abbrev trimmed_pieces : List Text → List Text
trimmed_pieces [] = []
trimmed_pieces (piece ∷ pieces) =
    let trimmed = trim_space piece in
    let rest = trimmed_pieces pieces in if is_empty trimmed then rest else trimmed ∷ rest

unfoldable pub trusted_proxies_of : Environment → List Text
unfolding split
trusted_proxies_of env =
    let raw = string_value env "HTTP_TRUSTED_PROXIES" (string_value env "TRUSTED_PROXIES" []) in
    if is_empty raw then [] else trimmed_pieces (split 44 raw)

abbrev pub put_pair : Text → Text → Keys → Option (Text × Text) → Outcome Keys
put_pair active pair keys none = rejected (malformed_pair pair)
put_pair active pair keys (some (id, secret)) =
    if is_empty id || is_empty secret
    then rejected (malformed_pair pair)
    else if text_eq id active
    then rejected (has_active_key active)
    else accepted (insert id secret keys)

unfoldable pub put_pairs : Text → Keys → List Text → Outcome Keys
unfolding cut
put_pairs active keys [] = accepted keys
put_pairs active keys (pair ∷ pairs) =
    put_pair active pair keys (cut 58 (trim_space pair)) >>= (λ more. put_pairs active more pairs)

unfoldable pub legacy_keys_of : Environment → Text → Outcome Keys
unfolding split put_pairs
legacy_keys_of env active =
    let raw = string_value env "JWT_LEGACY_KEYS" [] in
    if is_empty raw then accepted [] else put_pairs active [] (split 44 raw)

abbrev pub check : Bool → Rejection → Outcome (Unit {0})
check true e = rejected e
check false e = accepted tt

abbrev pub check_network : Text → Option (ℕ × ℕ) → Outcome (Unit {0})
check_network proxy none = rejected (invalid_proxy proxy)
check_network proxy (some (ones, bits)) = check (ones == 0 && ltb 0 bits) (proxy_of_all proxy)

unfoldable pub validate_trusted_proxy : Parsers → Text → Outcome (Unit {0})
validate_trusted_proxy parsers raw =
    let proxy = trim_space raw in
    if is_empty proxy
    then rejected empty_proxy
    else if parsers.is_ip proxy
    then accepted tt
    else check_network proxy (parsers.cidr proxy)

unfoldable pub validate_proxies : Parsers → List Text → Outcome (Unit {0})
unfolding validate_trusted_proxy
validate_proxies parsers [] = accepted tt
validate_proxies parsers (proxy ∷ proxies) =
    validate_trusted_proxy parsers proxy >> validate_proxies parsers proxies

unfoldable pub validate : Parsers → Config → Outcome (Unit {0})
unfolding validate_proxies
validate parsers c = do
  check (is_empty c.http.address) empty_address
  check (leb_ℤ c.http.max_request_body_bytes (pos 0)) body_not_positive
  check (is_empty (trim_space c.http.metrics_token)) empty_token
  validate_proxies parsers c.http.trusted_proxies
  check
      (leb_ℤ c.database.max_open_connections (pos 0)
        || ltb_ℤ c.database.max_idle_connections (pos 0)
        || ltb_ℤ c.database.max_open_connections c.database.max_idle_connections)
      invalid_pool
  check
      (leb_ℤ c.security.access_token_ttl (pos 0)
        || leb_ℤ c.security.refresh_token_ttl (pos 0)
        || leb_ℤ c.idempotency.lease_ttl (pos 0)
        || leb_ℤ c.idempotency.replay_ttl (pos 0))
      ttl_not_positive
  check
      (leb_ℤ c.audit.outbox_retention (pos 0)
        || leb_ℤ c.audit.warning_age (pos 0)
        || leb_ℤ c.audit.critical_age c.audit.warning_age
        || leb_ℤ c.audit.reconciliation_interval (pos 0))
      invalid_audit

unfoldable pub read_http : Parsers → Environment → Text → Outcome HttpConfig
read_http parsers env metrics_token = do
  read_timeout ← read_duration parsers env "HTTP_READ_TIMEOUT" (seconds 10)
  write_timeout ← read_duration parsers env "HTTP_WRITE_TIMEOUT" (seconds 15)
  idle_timeout ← read_duration parsers env "HTTP_IDLE_TIMEOUT" (seconds 60)
  shutdown_timeout ← read_duration parsers env "SHUTDOWN_TIMEOUT" (seconds 10)
  max_bytes ← read_int parsers env "MAX_REQUEST_BODY_BYTES" (pos 1048576) (pos 1)
  pure (record {
    address = string_value env "HTTP_ADDRESS" (runes ":8080");
    read_timeout = read_timeout;
    write_timeout = write_timeout;
    idle_timeout = idle_timeout;
    shutdown_timeout = shutdown_timeout;
    max_request_body_bytes = max_bytes;
    metrics_token = metrics_token;
    trusted_proxies = trusted_proxies_of env;
  })

unfoldable pub read_database : Parsers → Environment → Text → Outcome DatabaseConfig
read_database parsers env url = do
  max_open ← read_int parsers env "DB_MAX_OPEN_CONNS" (pos 20) (pos 1)
  max_idle ← read_int parsers env "DB_MAX_IDLE_CONNS" (pos 10) (pos 0)
  lifetime ← read_duration parsers env "DB_CONN_MAX_LIFETIME" (seconds 1800)
  pure (record {
    url = url;
    max_open_connections = max_open;
    max_idle_connections = max_idle;
    connection_max_lifetime = lifetime;
  })

unfoldable pub read_security : Parsers → Environment → Text → Text → Keys → Outcome SecurityConfig
read_security parsers env jwt_secret key_id legacy_keys = do
  access_ttl ← read_duration parsers env "ACCESS_TOKEN_TTL" (seconds 900)
  refresh_ttl ← read_duration parsers env "REFRESH_TOKEN_TTL" (seconds 604800)
  pure (record {
    jwt_secret = jwt_secret;
    jwt_key_id = key_id;
    jwt_legacy_keys = legacy_keys;
    jwt_issuer = string_value env "JWT_ISSUER" (runes "disbursement-api");
    jwt_audience = string_value env "JWT_AUDIENCE" (runes "disbursement-api-users");
    access_token_ttl = access_ttl;
    refresh_token_ttl = refresh_ttl;
  })

unfoldable pub read_idempotency : Parsers → Environment → Outcome IdempotencyConfig
read_idempotency parsers env = do
  lease ← read_duration parsers env "IDEMPOTENCY_LEASE_TTL" (seconds 30)
  replay ← read_duration parsers env "IDEMPOTENCY_REPLAY_TTL" (seconds 86400)
  pure (record { lease_ttl = lease; replay_ttl = replay })

unfoldable pub read_audit : Parsers → Environment → Outcome AuditConfig
read_audit parsers env = do
  retention ← read_duration parsers env "AUDIT_OUTBOX_RETENTION" (seconds 2592000)
  warning ← read_duration parsers env "AUDIT_WARNING_AGE" (seconds 300)
  critical ← read_duration parsers env "AUDIT_CRITICAL_AGE" (seconds 900)
  reconciliation ← read_duration parsers env "AUDIT_RECONCILIATION_INTERVAL" (seconds 900)
  batch ← read_int parsers env "AUDIT_OUTBOX_BATCH_SIZE" (pos 50) (pos 1)
  relay ← read_duration parsers env "AUDIT_RELAY_INTERVAL" (seconds 5)
  pure (record {
    outbox_retention = retention;
    warning_age = warning;
    critical_age = critical;
    reconciliation_interval = reconciliation;
    outbox_batch_size = batch;
    relay_interval = relay;
  })

unfoldable pub validated : Parsers → Config → Outcome Config
unfolding validate
validated parsers c = validate parsers c >> pure c

unfoldable pub load : Parsers → Environment → Outcome Config
unfolding database_url read_http read_database read_security read_idempotency read_audit
    legacy_keys_of validated
load parsers env =
    let key_id = string_value env "JWT_KEY_ID" (runes "v1") in
    do
      url ← database_url parsers env
      secret ← required env "JWT_SECRET"
      token ← required env "METRICS_TOKEN"
      legacy ← legacy_keys_of env key_id
      http ← read_http parsers env token
      database ← read_database parsers env url
      security ← read_security parsers env secret key_id legacy
      idempotency ← read_idempotency parsers env
      audit ← read_audit parsers env
      validated parsers (record {
        http = http;
        database = database;
        security = security;
        idempotency = idempotency;
        audit = audit;
      })

-- `MinimumSecretLength`.
abbrev pub minimum_secret_length : ℕ
minimum_secret_length = 32

abbrev pub is_short : Text → Bool
is_short secret = ltb (byte_len secret) minimum_secret_length

-- The loop over the legacy keys, in some order.
unfoldable pub validate_legacy : Keys → Outcome (Unit {0})
validate_legacy [] = accepted tt
validate_legacy ((id, secret) ∷ keys) =
    check (is_short secret) (short_legacy_secret id) >> validate_legacy keys

unfoldable pub validate_secret_strength : Config → Outcome (Unit {0})
unfolding validate_legacy
validate_secret_strength c = do
  check (is_short c.security.jwt_secret) short_secret
  validate_legacy c.security.jwt_legacy_keys
  check (is_short c.http.metrics_token) short_token
