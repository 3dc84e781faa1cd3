-- ===== src/Config/Sound.antt =====
-- internal/config/config.go: what holds of every configuration that is loaded.
use Prim.Native.String.{String}
use disbursment_api.Base.{ℕ, ◌≤◌, ◌≡◌, refl, true, false, arith, All}
use disbursment_api.Base.Int.{ℤ, pos, ltb_ℤ, ◌≤ℤ◌}
use disbursment_api.Base.Text.{Text, is_empty, trim_space}
use disbursment_api.Domain.KeyProvider.{Keys}
use disbursment_api.Config.Reading.{
  Parsers, Environment, string_value, required, read_duration, is_postgres, not_postgres_url,
  database_url,
}
use disbursment_api.Config.Loading.{
  HttpConfig, DatabaseConfig, SecurityConfig, AuditConfig, Config, seconds, validate, read_http,
  read_database, read_security, read_idempotency, read_audit, validated,
}
use disbursment_api.Config.Accepting.{
  Accepts, pure-Accepts, rejected-Accepts, bind-Accepts, if-Accepts, read_duration-Accepts,
  read_int-Accepts, check-Accepts, Narrow, validate_proxies-Accepts, IsLegacy,
}

abbrev pub Positive : ℤ → Type 0
Positive d = pos 1 ≤ℤ d

pub record IsHttp (h : HttpConfig) : Type 0 where
  pub timeouts :
      Positive h.read_timeout
      × Positive h.write_timeout
      × Positive h.idle_timeout
      × Positive h.shutdown_timeout
  pub body : Positive h.max_request_body_bytes
  pub token_given : is_empty h.metrics_token ≡ false

-- The pool may keep no more connections idle than it may open.
pub record IsDatabase (parsers : Parsers) (d : DatabaseConfig) : Type 0 where
  pub postgres : is_postgres (parsers.url d.url) ≡ true
  pub idle : pos 0 ≤ℤ d.max_idle_connections
  pub opened : Positive d.max_open_connections
  pub lifetime : Positive d.connection_max_lifetime

pub record IsSecurity (s : SecurityConfig) : Type 0 where
  pub id_given : is_empty s.jwt_key_id ≡ false
  pub secret_given : is_empty s.jwt_secret ≡ false
  pub ttls : Positive s.access_token_ttl × Positive s.refresh_token_ttl
  pub legacy : All (IsLegacy s.jwt_key_id) s.jwt_legacy_keys

pub record IsAudit (a : AuditConfig) : Type 0 where
  pub ages : Positive a.outbox_retention × Positive a.warning_age
  pub intervals : Positive a.reconciliation_interval × Positive a.relay_interval
  pub batch : Positive a.outbox_batch_size

-- What `validate` adds to what the readings know.
pub record Checked (parsers : Parsers) (c : Config) : Type 0 where
  pub address_given : is_empty c.http.address ≡ false
  pub proxies : All (Narrow parsers) c.http.trusted_proxies
  pub pool : c.database.max_idle_connections ≤ℤ c.database.max_open_connections
  pub warned_first : ltb_ℤ c.audit.warning_age c.audit.critical_age ≡ true

-- The parts, and what only `validate` compares.
pub record IsValid (parsers : Parsers) (c : Config) : Type 0 where
  pub http : IsHttp c.http
  pub database : IsDatabase parsers c.database
  pub security : IsSecurity c.security
  pub idempotency : Positive c.idempotency.lease_ttl × Positive c.idempotency.replay_ttl
  pub audit : IsAudit c.audit
  pub checked : Checked parsers c

pub string_value-given :
    (env : Environment) (name : String) (fallback : Text)
    → is_empty fallback ≡ false
    → is_empty (string_value env name fallback) ≡ false
unfolding string_value
string_value-given env name fallback h = ground (arith, h)

pub required-Accepts :
    (env : Environment) (name : String) → Accepts (λ v. is_empty v ≡ false) (required env name)
unfolding required
required-Accepts env name =
    if-Accepts (is_empty (trim_space (env name))) (λ unset. rejected-Accepts _)
      (λ set. pure-Accepts (trim_space (env name)) set)

module _ (parsers : Parsers) (env : Environment) where
  pub database_url-Accepts :
      Accepts (λ u. is_postgres (parsers.url u) ≡ true) (database_url parsers env)
  unfolding database_url
  database_url-Accepts = bind-Accepts (required-Accepts env "DATABASE_URL") (λ raw given.
      if-Accepts (is_postgres (parsers.url raw)) (λ yes. pure-Accepts raw yes)
        (λ no. rejected-Accepts not_postgres_url))

  time-Accepts :
      (name : String) (n : ℕ)
      → 1 ≤ n
      → Accepts Positive (read_duration parsers env name (seconds n))
  time-Accepts name n h = read_duration-Accepts parsers env name (seconds n) (omega arith)

  pub read_http-Accepts :
      (token : Text) → is_empty token ≡ false → Accepts IsHttp (read_http parsers env token)
  unfolding read_http
  read_http-Accepts token given =
      bind-Accepts (time-Accepts "HTTP_READ_TIMEOUT" 10 (omega arith)) (λ r hr.
        bind-Accepts (time-Accepts "HTTP_WRITE_TIMEOUT" 15 (omega arith)) (λ w hw.
          bind-Accepts (time-Accepts "HTTP_IDLE_TIMEOUT" 60 (omega arith)) (λ i hi.
            bind-Accepts (time-Accepts "SHUTDOWN_TIMEOUT" 10 (omega arith)) (λ s hs.
              bind-Accepts
                (read_int-Accepts parsers env "MAX_REQUEST_BODY_BYTES" (pos 1048576) (pos 1)
                  (omega arith))
                (λ b hb.
                  pure-Accepts _
                    (record { timeouts = (hr, hw, hi, hs); body = hb; token_given = given }))))))

  pub read_database-Accepts :
      (url : Text)
      → is_postgres (parsers.url url) ≡ true
      → Accepts (IsDatabase parsers) (read_database parsers env url)
  unfolding read_database
  read_database-Accepts url good =
      bind-Accepts (read_int-Accepts parsers env "DB_MAX_OPEN_CONNS" (pos 20) (pos 1) (omega arith))
        (λ o ho.
          bind-Accepts
            (read_int-Accepts parsers env "DB_MAX_IDLE_CONNS" (pos 10) (pos 0) (omega arith))
            (λ i hi. bind-Accepts (time-Accepts "DB_CONN_MAX_LIFETIME" 1800 (omega arith)) (λ l hl.
              pure-Accepts _ (record { postgres = good; idle = hi; opened = ho; lifetime = hl }))))

  pub read_security-Accepts :
      (secret id : Text) (keys : Keys)
      → is_empty id ≡ false
      → is_empty secret ≡ false
      → All (IsLegacy id) keys
      → Accepts IsSecurity (read_security parsers env secret id keys)
  unfolding read_security
  read_security-Accepts secret id keys named given legacy =
      bind-Accepts (time-Accepts "ACCESS_TOKEN_TTL" 900 (omega arith)) (λ a ha.
        bind-Accepts (time-Accepts "REFRESH_TOKEN_TTL" 604800 (omega arith)) (λ r hr.
          pure-Accepts _
            (record { id_given = named; secret_given = given; ttls = (ha, hr); legacy = legacy })))

  pub read_idempotency-Accepts :
      Accepts (λ i. Positive i.lease_ttl × Positive i.replay_ttl) (read_idempotency parsers env)
  unfolding read_idempotency
  read_idempotency-Accepts =
      bind-Accepts (time-Accepts "IDEMPOTENCY_LEASE_TTL" 30 (omega arith)) (λ l hl.
        bind-Accepts (time-Accepts "IDEMPOTENCY_REPLAY_TTL" 86400 (omega arith))
          (λ r hr. pure-Accepts _ (hl, hr)))

  pub read_audit-Accepts : Accepts IsAudit (read_audit parsers env)
  unfolding read_audit
  read_audit-Accepts =
      bind-Accepts (time-Accepts "AUDIT_OUTBOX_RETENTION" 2592000 (omega arith)) (λ o ho.
        bind-Accepts (time-Accepts "AUDIT_WARNING_AGE" 300 (omega arith)) (λ w hw.
          bind-Accepts (time-Accepts "AUDIT_CRITICAL_AGE" 900 (omega arith)) (λ c hc.
            bind-Accepts (time-Accepts "AUDIT_RECONCILIATION_INTERVAL" 900 (omega arith)) (λ r hr.
              bind-Accepts
                (read_int-Accepts parsers env "AUDIT_OUTBOX_BATCH_SIZE" (pos 50) (pos 1)
                  (omega arith))
                (λ b hb. bind-Accepts (time-Accepts "AUDIT_RELAY_INTERVAL" 5 (omega arith)) (λ l hl.
                  pure-Accepts _
                    (record { ages = (ho, hw); intervals = (hr, hl); batch = hb })))))))

module _ (parsers : Parsers) (c : Config) where
  validate-Accepts : Accepts (λ u. Checked parsers c) (validate parsers c)
  unfolding validate
  validate-Accepts = bind-Accepts (check-Accepts (is_empty c.http.address) _) (λ u1 address.
      bind-Accepts (check-Accepts _ _) (λ u2 body. bind-Accepts (check-Accepts _ _) (λ u3 token.
        bind-Accepts (validate_proxies-Accepts parsers c.http.trusted_proxies) (λ u4 proxies.
          bind-Accepts (check-Accepts _ _) (λ u5 pool. bind-Accepts (check-Accepts _ _) (λ u6 ttls.
            record {
              run = λ u7 e.
                  let audit = (check-Accepts _ _).run u7 e in
                  record {
                    address_given = address;
                    proxies = proxies;
                    pool = ground (arith, pool);
                    warned_first = ground (arith, audit);
                  };
            }))))))

  pub validated-Accepts : Accepts (λ d. (c ≡ d) × Checked parsers c) (validated parsers c)
  unfolding validated
  validated-Accepts = bind-Accepts validate-Accepts (λ u k. pure-Accepts c (refl, k))
