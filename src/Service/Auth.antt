-- ===== src/Service/Auth.antt =====
-- internal/service/auth/service.go: login, refresh and logout. A refresh token is stored as its hash.
pub mod Refreshing
pub mod Revoking
pub mod Apart
use Prim.Native.String.{String}
use disbursment_api.Base.{
  ℕ, ◌+◌, ◌/◌, Bool, true, false, not, ◌||◌, Option, none, ltb, if◌then◌else◌, is_some,
}
use disbursment_api.Base.Int.{ℤ, sub_ℕ}
use disbursment_api.Base.Text.{Text, is_empty}
use disbursment_api.Failure.{
  Failure, domain, repository, raw, ErrorCategory, not_found, Result, ok, err,
}
use disbursment_api.Domain.Errors.{invalid_credentials, invalid_refresh_token}
use disbursment_api.Repository.Tables.{RefreshSession, User}
use disbursment_api.Repository.World.{
  Action, pure, raise, lift, ◌>>=◌, ◌>>◌, attempt, mapping_error, within_transaction, record_metric,
  auth_failure,
}
use disbursment_api.Repository.Sessions

-- What an access token states: golang-jwt's MapClaims of `generateAccessToken`.
pub record AccessClaims : Type 0 where
  pub sub : ℕ
  pub username : Text
  pub role : Text
  pub iss : Text
  pub aud : Text
  pub iat : ℤ
  pub exp : ℤ

-- `matches` is bcrypt's comparison of a hash with a password, `sign` golang-jwt's signature with a key
-- id and a secret, and `hash_token` the hexadecimal SHA-256. The key is that of the key provider.
pub record Auth : Type 0 where
  pub collector : Bool
  pub matches : Text → Text → Bool
  pub sign : Text → Text → AccessClaims → Result Text
  pub hash_token : Text → Text
  pub key_id : Text
  pub secret : Text
  pub issuer : Text
  pub audience : Text
  pub access_token_ttl : ℕ
  pub refresh_token_ttl : ℕ

-- What a call reads: its clock, a fresh refresh token, the new session's id, and the server's time.
pub record AuthReadings : Type 0 where
  pub now : ℕ
  pub refresh_token : Text
  pub session_id : ℕ
  pub server_now : ℕ

pub record TokenResponse : Type 0 where
  pub access_token : Text
  pub refresh_token : Text
  pub expires_in : ℕ
  pub refresh_expires_in : ℕ

-- `Seconds` of a duration, without its fraction; and `Unix` of a time, the seconds from 1970.
abbrev pub whole_seconds : ℕ → ℕ
whole_seconds d = d / 1000000000

abbrev pub unix : ℕ → ℤ
unix t = sub_ℕ (t / 1000000000) 62135596800

unfoldable pub generate_access_token : Auth → User → ℕ → Result Text
generate_access_token auth user now = auth.sign auth.key_id auth.secret (record {
  sub = user.id;
  username = user.username;
  role = user.role;
  iss = auth.issuer;
  aud = auth.audience;
  iat = unix now;
  exp = unix (now + auth.access_token_ttl);
})

unfoldable pub new_session : Auth → AuthReadings → User → RefreshSession
new_session auth r user = record {
  id = r.session_id;
  user_id = user.id;
  token_hash = auth.hash_token r.refresh_token;
  expires_at = r.now + auth.refresh_token_ttl;
  revoked_at = none;
  replaced_by_id = none;
}

abbrev pub token_response : Auth → AuthReadings → Text → TokenResponse
token_response auth r token = record {
  access_token = token;
  refresh_token = r.refresh_token;
  expires_in = whole_seconds auth.access_token_ttl;
  refresh_expires_in = whole_seconds auth.refresh_token_ttl;
}

-- `errors.As` to the repository's error, with the category of a missing row.
abbrev pub is_missing : Failure → Bool
is_missing (repository not_found cause) = true
is_missing _ = false

abbrev pub refuse : Auth → String → Failure → {A : Type 0} → Action A
refuse auth reason e = record_metric auth.collector (auth_failure reason) >> raise e

abbrev pub log_in : Auth → AuthReadings → Text → Result User → Action TokenResponse
log_in auth r password (err e) =
    if is_missing e then refuse auth "invalid_credentials" (domain invalid_credentials) else raise e
log_in auth r password (ok user) =
    if auth.matches user.password_hash password
    then (lift (generate_access_token auth user r.now) >>= λ token.
        within_transaction (Sessions.create (new_session auth r user) r.server_now)
        >> pure (token_response auth r token))
    else refuse auth "invalid_credentials" (domain invalid_credentials)

-- `Login`. Where the user is missing the source compares with a dummy hash and drops the result.
unfoldable pub login : Auth → AuthReadings → Text → Text → Action TokenResponse
login auth r username password =
    attempt (Sessions.find_user_by_username username) (log_in auth r password)

abbrev pub invalid : Failure
invalid = domain invalid_refresh_token

abbrev pub invalid_if_missing : Failure → Failure
invalid_if_missing e = if is_missing e then invalid else e

abbrev pub with_user : Auth → AuthReadings → Text → User → Action Text
with_user auth r hash user =
    mapping_error invalid_if_missing (Sessions.rotate hash (new_session auth r user) r.now)
    >> lift (generate_access_token auth user r.now)

abbrev pub with_session : Auth → AuthReadings → Text → RefreshSession → Action Text
with_session auth r hash session =
    if is_some session.revoked_at || not (ltb r.now session.expires_at)
    then raise invalid
    else (mapping_error (λ e. invalid) (Sessions.find_user_by_id session.user_id)
        >>= with_user auth r hash)

-- The transaction of `Refresh`.
unfoldable pub store_refresh : Auth → AuthReadings → Text → Action Text
store_refresh auth r hash =
    mapping_error invalid_if_missing (Sessions.find_by_token_hash hash) >>= with_session auth r hash

abbrev pub refreshed : Auth → AuthReadings → Result Text → Action TokenResponse
refreshed auth r (ok token) = pure (token_response auth r token)
refreshed auth r (err e) = refuse auth "invalid_refresh_token" e

unfoldable pub refresh : Auth → AuthReadings → Text → Action TokenResponse
refresh auth r token =
    if is_empty token
    then raise invalid
    else attempt (within_transaction (store_refresh auth r (auth.hash_token token)))
        (refreshed auth r)

unfoldable pub logout : Auth → AuthReadings → Text → Action (Unit {0})
logout auth r token =
    if is_empty token
    then pure tt
    else within_transaction (Sessions.revoke_by_token_hash (auth.hash_token token) r.now)
