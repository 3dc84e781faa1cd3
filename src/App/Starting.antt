-- ===== src/App/Starting.antt =====
-- internal/app/app.go: when an application starts.
use disbursment_api.Base.{
  ℕ, suc, ◌≡◌, refl, sym, ◌∙◌, ◌↔◌, Bool, true, false, ◌||◌, arith, if◌then◌else◌, Bool-cases, inl,
  inr,
}
use disbursment_api.Base.Int.{ℤ, pos, ◌≤ℤ◌, leb_ℤ, ltb_ℤ}
use disbursment_api.Base.Text.{is_empty}
use disbursment_api.Domain.KeyProvider.{active_key, new_static_key_provider}
use disbursment_api.Config.Reading.{accepted, Parsers, Environment}
use disbursment_api.Config.Loading.{Config, load, validate_secret_strength}
use disbursment_api.Config.Valid.{load-IsValid}
use disbursment_api.Config.Secrets.{key_provider_of}
use disbursment_api.App.{
  Startup, failed, ready, coordinator_invalid, Libraries, open_database, new_coordinator,
  new_auth_service, closing, assemble, new,
}

abbrev pub is_ready : {A : Type 0} → Startup A → Bool
is_ready (failed e) = false
is_ready (ready a) = true

new_coordinator-lem :
    (lease replay : ℤ)
    → pos 1 ≤ℤ lease
    → new_coordinator lease replay ≡ (
        if ltb_ℤ lease replay
        then ready (record { lease_ttl = lease; replay_ttl = replay })
        else failed coordinator_invalid)
unfolding new_coordinator
new_coordinator-lem lease replay positive = elim (Bool-cases (ltb_ℤ lease replay)) [
  | inl less ↦
      let valid : (leb_ℤ lease (pos 0) || leb_ℤ replay lease) ≡ false = ground (arith, less) in
      rw less (rw valid refl)
  | inr not_less ↦
      let invalid : (leb_ℤ lease (pos 0) || leb_ℤ replay lease) ≡ true = ground (arith, not_less) in
      rw not_less (rw invalid refl)
]

-- A service of the authentication is made if the active secret is not empty.
active_key-lem :
    (c : Config)
    → is_empty c.security.jwt_secret ≡ false
    → is_empty (active_key (key_provider_of c)).1 ≡ false
unfolding key_provider_of active_key new_static_key_provider
active_key-lem c h = rw h h

module _ (l : Libraries) (c : Config) (pools : ℕ) where
  assemble-ready :
      is_empty c.security.jwt_secret ≡ false
      → pos 1 ≤ℤ c.idempotency.lease_ttl
      → l.validates ≡ true
      → l.trusts c.http.trusted_proxies ≡ true
      → is_ready (assemble l c (ready tt, pools)).0
        ≡ ltb_ℤ c.idempotency.lease_ttl c.idempotency.replay_ttl
  unfolding assemble closing new_auth_service
  assemble-ready given positive validates trusts =
      let coordinator =
        new_coordinator-lem c.idempotency.lease_ttl c.idempotency.replay_ttl positive in
      elim (Bool-cases (ltb_ℤ c.idempotency.lease_ttl c.idempotency.replay_ttl)) [
        | inl less ↦
            rw coordinator (rw less (rw (active_key-lem c given) (rw validates (rw trusts refl))))
        | inr not_less ↦ rw coordinator (rw not_less refl)
      ]

-- Where the libraries work, a configuration that is loaded, and whose secrets are long enough, starts an
-- application exactly if the time for which a response is replayed exceeds that of a lease.
pub new-ready_iff :
    (parsers : Parsers) (env : Environment) (l : Libraries) (c : Config) (pools : ℕ)
    → load parsers env ≡ accepted c
    → validate_secret_strength c ≡ accepted tt
    → l.opens ≡ true
    → l.pings ≡ true
    → l.validates ≡ true
    → l.trusts c.http.trusted_proxies ≡ true
    → (is_ready (new l c pools).0 ≡ true)
      ↔ (ltb_ℤ c.idempotency.lease_ttl c.idempotency.replay_ttl ≡ true)
unfolding new open_database
new-ready_iff parsers env l c pools loaded strong opens pings validates trusts =
    let valid = load-IsValid parsers env c loaded in
    let same =
      assemble-ready l c (suc pools) valid.security.secret_given valid.idempotency.0 validates
        trusts in
    rw strong (rw opens (rw pings ((λ h. sym same ∙ h), (λ h. same ∙ h))))
