-- ===== src/Config/Secrets.antt =====
-- internal/app/app.go: the keys that an application signs and verifies with, as configured by
-- internal/config/config.go.
use disbursment_api.Base.{◌≤◌, ◌≡◌, refl, inl, inr, some, [], ◌∷◌, All, Bool-cases, arith}
use disbursment_api.Base.Text.{Text, text_eq, text_eq_sound, byte_len}
use disbursment_api.Domain.KeyProvider.{
  Keys, StaticKeyProvider, lookup, new_static_key_provider, active_key, get_key, all_keys,
}
use disbursment_api.Domain.KeyProvider.Held.{
  HasSecret, AllSecrets, Held, get_key-Held, all_keys-Held,
}
use disbursment_api.Domain.KeyProvider.Rotation.{get_key-rotated}
use disbursment_api.Config.Reading.{accepted, Parsers, Environment}
use disbursment_api.Config.Loading.{
  Config, load, minimum_secret_length, is_short, validate_legacy, validate_secret_strength,
}
use disbursment_api.Config.Accepting.{Accepts, bind-Accepts, pure-Accepts, check-Accepts, IsLegacy}
use disbursment_api.Config.Valid.{load-IsValid}

-- The key provider that `New` makes.
unfoldable pub key_provider_of : Config → StaticKeyProvider
key_provider_of c =
    new_static_key_provider c.security.jwt_key_id c.security.jwt_secret c.security.jwt_legacy_keys

abbrev pub Strong : Text → Type 0
Strong secret = minimum_secret_length ≤ byte_len secret

validate_legacy-Accepts :
    (keys : Keys) → Accepts (λ u. AllSecrets Strong keys) (validate_legacy keys)
unfolding validate_legacy
validate_legacy-Accepts [] = pure-Accepts tt tt
validate_legacy-Accepts ((id, secret) ∷ keys) =
    bind-Accepts (check-Accepts (is_short secret) _)
      (λ u long. record { run = λ v e. (ground arith, (validate_legacy-Accepts keys).run v e) })

record AllStrong (c : Config) : Type 0 where
  pub active : Strong c.security.jwt_secret
  pub legacy : AllSecrets Strong c.security.jwt_legacy_keys
  pub token : Strong c.http.metrics_token

validate_secret_strength-Accepts :
    (c : Config) → Accepts (λ u. AllStrong c) (validate_secret_strength c)
unfolding validate_secret_strength
validate_secret_strength-Accepts c =
    bind-Accepts (check-Accepts (is_short c.security.jwt_secret) _) (λ u long.
      bind-Accepts (validate_legacy-Accepts c.security.jwt_legacy_keys) (λ v legacy. record {
        run = λ x e.
            let token = (check-Accepts _ _).run x e in
            record { active = ground arith; legacy = legacy; token = ground arith };
      }))

HasSecret-AllSecrets :
    (P : Text → Type 0) (secret : Text) (keys : Keys)
    → AllSecrets P keys
    → HasSecret secret keys
    → P secret
HasSecret-AllSecrets P secret [] all h = absurd h
HasSecret-AllSecrets P secret ((k, v) ∷ keys) all (inl e) = rw e all.0
HasSecret-AllSecrets P secret ((k, v) ∷ keys) all (inr h) =
    HasSecret-AllSecrets P secret keys all.1 h

AllSecrets-map :
    (P Q : Text → Type 0) (keys : Keys)
    → ((secret : Text) → P secret → Q secret)
    → AllSecrets P keys
    → AllSecrets Q keys
AllSecrets-map P Q [] f all = tt
AllSecrets-map P Q ((k, v) ∷ keys) f all = (f v all.0, AllSecrets-map P Q keys f all.1)

Held-Strong :
    (c : Config) (secret : Text)
    → AllStrong c
    → Held c.security.jwt_secret c.security.jwt_legacy_keys secret
    → Strong secret
Held-Strong c secret strong (filled, inl active) = rw active strong.active
Held-Strong c secret strong (filled, inr legacy) =
    HasSecret-AllSecrets Strong secret c.security.jwt_legacy_keys strong.legacy legacy

-- An application that starts, since its secrets pass `ValidateSecretStrength`, has no short secret:
-- whatever key id a token names, the secret that is found for it has 32 bytes or more, so have all
-- secrets that are tried for a token without a key id, and so has the token of the metrics.
pub validate_secret_strength-Strong :
    (c : Config)
    → validate_secret_strength c ≡ accepted tt
    → ((id secret : Text) → get_key (key_provider_of c) id ≡ some secret → Strong secret)
      × AllSecrets Strong (all_keys (key_provider_of c))
      × Strong c.http.metrics_token
unfolding key_provider_of
validate_secret_strength-Strong c e =
    let strong = (validate_secret_strength-Accepts c).run tt e in
    let s = c.security in
    (
      λ id secret found.
          Held-Strong c secret strong
            (get_key-Held s.jwt_key_id s.jwt_secret s.jwt_legacy_keys id secret found),
      AllSecrets-map _ _ _ (λ secret. Held-Strong c secret strong)
          (all_keys-Held s.jwt_key_id s.jwt_secret s.jwt_legacy_keys),
      strong.token,
    )

lookup-IsLegacy :
    (active id secret : Text) (keys : Keys)
    → All (IsLegacy active) keys
    → lookup id keys ≡ some secret
    → IsLegacy active (id, secret)
unfolding lookup
lookup-IsLegacy active id secret [] all found = absurd (cc found)
lookup-IsLegacy active id secret ((j, v) ∷ keys) all found = elim (Bool-cases (text_eq j id)) [
  | inl same ↦
      let names : j ≡ id = text_eq_sound j id same in
      let values : v ≡ secret = ground (arith, same, found) in rw (← names) (rw (← values) all.0)
  | inr differs ↦ lookup-IsLegacy active id secret keys all.1 (rw differs at found)
]

-- A rotation of the key by configuration: if a configuration is loaded, and lists the key that another
-- one signs with among its legacy keys, then its application finds that key for the other's tokens.
pub load-rotated :
    (parsers : Parsers) (env : Environment) (c c' : Config)
    → load parsers env ≡ accepted c'
    → lookup c.security.jwt_key_id c'.security.jwt_legacy_keys ≡ some c.security.jwt_secret
    → get_key (key_provider_of c') (active_key (key_provider_of c)).0
      ≡ some (active_key (key_provider_of c)).1
unfolding key_provider_of new_static_key_provider
load-rotated parsers env c c' e listed =
    let valid' = load-IsValid parsers env c' e in
    let entry =
      lookup-IsLegacy c'.security.jwt_key_id c.security.jwt_key_id c.security.jwt_secret
        c'.security.jwt_legacy_keys valid'.security.legacy listed in
    let named : (key_provider_of c).active_key_id ≡ c.security.jwt_key_id = rw entry.0 refl in
    let named' : (key_provider_of c').active_key_id ≡ c'.security.jwt_key_id =
      rw valid'.security.id_given refl in
    (get_key-rotated (key_provider_of c) c'.security.jwt_key_id c'.security.jwt_secret
      c'.security.jwt_legacy_keys (rw named entry.0) entry.1 valid'.security.secret_given
      (rw named (rw named' entry.2)) (rw named listed)).1
