-- ===== src/Config/Valid.antt =====
-- internal/config/config.go: a configuration that is loaded is valid.
use disbursment_api.Base.{◌≡◌, refl}
use disbursment_api.Base.Text.{runes}
use disbursment_api.Config.Reading.{accepted, Parsers, Environment, string_value}
use disbursment_api.Config.Loading.{Config, load}
use disbursment_api.Config.Accepting.{Accepts, bind-Accepts, legacy_keys_of-Accepts}
use disbursment_api.Config.Sound.{
  IsValid, string_value-given, required-Accepts, database_url-Accepts, read_http-Accepts,
  read_database-Accepts, read_security-Accepts, read_idempotency-Accepts, read_audit-Accepts,
  validated-Accepts,
}

module _ (parsers : Parsers) (env : Environment) where
  load-Accepts : Accepts (IsValid parsers) (load parsers env)
  unfolding load
  load-Accepts =
      let key_id = string_value env "JWT_KEY_ID" (runes "v1") in
      bind-Accepts (database_url-Accepts parsers env) (λ url postgres.
        bind-Accepts (required-Accepts env "JWT_SECRET") (λ secret given.
          bind-Accepts (required-Accepts env "METRICS_TOKEN") (λ token token_given.
            bind-Accepts (legacy_keys_of-Accepts env key_id) (λ legacy good.
              bind-Accepts (read_http-Accepts parsers env token token_given) (λ http h1.
                bind-Accepts (read_database-Accepts parsers env url postgres) (λ database h2.
                  bind-Accepts
                    (read_security-Accepts parsers env secret key_id legacy
                      (string_value-given env "JWT_KEY_ID" (runes "v1") refl) given good)
                    (λ security h3.
                      bind-Accepts (read_idempotency-Accepts parsers env) (λ idempotency h4.
                        bind-Accepts (read_audit-Accepts parsers env) (λ audit h5. record {
                          run = λ c e.
                              let (same, checked) = (validated-Accepts parsers _).run c e in
                              rw (← same) (record {
                                http = h1;
                                database = h2;
                                security = h3;
                                idempotency = h4;
                                audit = h5;
                                checked = checked;
                              });
                        })))))))))

  -- A configuration that is loaded is within its bounds, whatever the environment says and whatever
  -- the parsers answer: its durations, its body limit, its batch size and its number of open
  -- connections are positive; the pool keeps between 0 and that many connections idle; the URL is
  -- PostgreSQL's; address, secret and token are not empty; each trusted proxy is one address or a
  -- network that is not the whole address space; the critical age is above the warning age; and the
  -- active key has an id, and every legacy key has an id, which is not the active one, and a secret.
  pub load-IsValid : (c : Config) → load parsers env ≡ accepted c → IsValid parsers c
  load-IsValid c e = load-Accepts.run c e
