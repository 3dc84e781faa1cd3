-- ===== src/Middleware/Authentication/Accepting.antt =====
-- internal/httpapi/middleware/auth.go with internal/service/auth/service.go: the middleware accepts the
-- access tokens of the service.
use disbursment_api.Base.{
  ℕ, ◌+◌, ◌≡◌, refl, ◌∙◌, ap, true, false, Option, some, none, ◌++◌, arith, if◌then◌else◌,
}
use disbursment_api.Base.Int.{ltb_ℤ}
use disbursment_api.Base.Text.{Text, runes, is_empty, text_eq, text_eq-same, trim_space, to_lower}
use disbursment_api.Failure.{ok}
use disbursment_api.Domain.Audit.{string, number}
use disbursment_api.Domain.KeyProvider.{StaticKeyProvider, get_key}
use disbursment_api.Middleware.Roles.{role_valid}
use disbursment_api.Middleware.Authentication.{
  Claims, valid_token, key_id, Jwt, Authenticator, hs256_key, parse_token, split_space,
  bearer_token, identity_of, authenticate,
}
use disbursment_api.Repository.Tables.{User}
use disbursment_api.Service.Auth.{AccessClaims, Auth, unix, generate_access_token}

-- The claims as golang-jwt gives them back, after they went through JSON.
unfoldable pub map_claims : (ℕ → Text) → AccessClaims → Claims
map_claims uuid_text c name =
    if text_eq name (runes "sub")
    then some (string (uuid_text c.sub))
    else if text_eq name (runes "username")
    then some (string c.username)
    else if text_eq name (runes "role")
    then some (string c.role)
    else if text_eq name (runes "iss")
    then some (string c.iss)
    else if text_eq name (runes "aud")
    then some (string c.aud)
    else if text_eq name (runes "iat")
    then some (number c.iat)
    else if text_eq name (runes "exp")
    then some (number c.exp)
    else none

abbrev pub claims_for : Auth → User → ℕ → AccessClaims
claims_for auth user now = record {
  sub = user.id;
  username = user.username;
  role = user.role;
  iss = auth.issuer;
  aud = auth.audience;
  iat = unix now;
  exp = unix (now + auth.access_token_ttl);
}

-- What golang-jwt promises of a token that it signed: the key id can be read, the text is compact, and
-- until the token expires it is valid for whoever gives the same secret for HS256.
pub record Honours (jwt : Jwt) (uuid_text : ℕ → Text) (kid secret : Text) (c : AccessClaims)
    (token : Text) : Type 0 where
  pub header : jwt.header token ≡ some (key_id kid)
  pub compact : (trim_space token ≡ token) × (is_empty token ≡ false)
  pub verified :
      (key : Text → Option Text) (now : ℕ)
      → key (runes "HS256") ≡ some secret
      → ltb_ℤ (unix now) c.exp ≡ true
      → jwt.parse key now token ≡ valid_token (map_claims uuid_text c)

-- How the program puts the middleware beside the service.
pub record Wired (auth : Auth) (a : Authenticator) (p : StaticKeyProvider) : Type 0 where
  pub provider : a.key_provider ≡ some p
  pub key : get_key p auth.key_id ≡ some auth.secret
  pub issuer : a.expected_issuer ≡ auth.issuer
  pub audience : a.expected_audience ≡ auth.audience

bearer_token-bearer :
    (token : Text)
    → trim_space token ≡ token
    → is_empty token ≡ false
    → bearer_token (runes "Bearer " ++ token) ≡ some token
unfolding bearer_token split_space text_eq to_lower
bearer_token-bearer token trimmed filled = rw trimmed (rw filled refl)

identity_of-claims :
    (auth : Auth) (a : Authenticator) (p : StaticKeyProvider) (uuid_text : ℕ → Text) (user : User)
    (now : ℕ)
    → Wired auth a p
    → a.parse_uuid (uuid_text user.id) ≡ some user.id
    → is_empty (trim_space user.username) ≡ false
    → role_valid user.role ≡ true
    → identity_of a (map_claims uuid_text (claims_for auth user now))
      ≡ some (record { id = user.id; username = user.username; role = user.role })
unfolding identity_of map_claims text_eq
identity_of-claims auth a p uuid_text user now wired parsed named known =
    let issued = ap (text_eq auth.issuer) wired.issuer ∙ text_eq-same auth.issuer in
    let meant = ap (text_eq auth.audience) wired.audience ∙ text_eq-same auth.audience in
    ground (arith, issued, meant, parsed, named, known)

hs256_key-hs256 : (secret : Text) → hs256_key secret (runes "HS256") ≡ some secret
unfolding hs256_key text_eq
hs256_key-hs256 secret = refl

-- Let the service sign an access token for a user with a valid role and a name that is not blank. Given
-- what golang-jwt promises of that token, and that google/uuid parses what it prints, a middleware with
-- the service's issuer and audience, whose provider has the service's secret under its key id, accepts
-- the token after `Bearer` until the second in which it expires, and states just that user.
pub generate_access_token-authenticate :
    (auth : Auth) (a : Authenticator) (p : StaticKeyProvider) (uuid_text : ℕ → Text) (user : User)
    (now later : ℕ) (token : Text)
    → Wired auth a p
    → (auth.sign auth.key_id auth.secret (claims_for auth user now) ≡ ok token
        → Honours a.jwt uuid_text auth.key_id auth.secret (claims_for auth user now) token)
    → a.parse_uuid (uuid_text user.id) ≡ some user.id
    → is_empty (trim_space user.username) ≡ false
    → role_valid user.role ≡ true
    → ltb_ℤ (unix later) (unix (now + auth.access_token_ttl)) ≡ true
    → generate_access_token auth user now ≡ ok token
    → authenticate a later (runes "Bearer " ++ token)
      ≡ some (record { id = user.id; username = user.username; role = user.role })
unfolding authenticate parse_token generate_access_token
generate_access_token-authenticate auth a p uuid_text user now later token wired golang_jwt parsed
      named known fresh signed =
    let honours = golang_jwt signed in
    let bearer = bearer_token-bearer token honours.compact.0 honours.compact.1 in
    let verified =
      honours.verified (hs256_key auth.secret) later (hs256_key-hs256 auth.secret) fresh in
    rw wired.provider (
      rw bearer (
        rw honours.header (
          rw wired.key (
            rw verified
              (identity_of-claims auth a p uuid_text user now wired parsed named known)))))
