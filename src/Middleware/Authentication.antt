-- ===== src/Middleware/Authentication.antt =====
-- internal/httpapi/middleware/auth.go: the bearer token of a request, and the user that it states.
-- golang-jwt and google/uuid are parameters. Go's order over the map of all keys is that of the list.
pub mod Accepting
pub mod Genuine
use Prim.Native.String.{String}
use disbursment_api.Base.{
  ℕ, Bool, true, false, not, ◌&&◌, ◌||◌, Option, none, some, List, [], ◌∷◌, if◌then◌else◌, ◌==◌,
}
use disbursment_api.Base.Text.{Text, runes, is_empty, text_eq, trim_space, to_lower}
use disbursment_api.Failure.{domain}
use disbursment_api.Domain.Audit.{Json, string}
use disbursment_api.Domain.Errors.{unauthorized}
use disbursment_api.Domain.KeyProvider.{StaticKeyProvider, Keys, active_key, get_key, all_keys}
use disbursment_api.Middleware.Roles.{UserRole, UserIdentity, role_valid}
use disbursment_api.Repository.World.{Action, pure, raise, ◌>>◌, record_metric, auth_failure}

-- `jwt.MapClaims`: what is at a name.
abbrev pub Claims : Type 0
Claims = Text → Option Json

-- The `kid` of a header that could be read without a look at the signature.
pub data KeyIdHeader : Type 0 where
  absent not_a_string : KeyIdHeader
  key_id : Text → KeyIdHeader

-- The token and the error of `jwt.Parse`.
pub data Parsed : Type 0 where
  no_token invalid_token : Parsed
  valid_token : Claims → Parsed

-- `header` is ParseUnverified, with `none` for its error; `parse` is Parse, with the function that gives
-- the key for a signing algorithm, at a time.
pub record Jwt : Type 0 where
  pub header : Text → Option KeyIdHeader
  pub parse : (Text → Option Text) → ℕ → Text → Parsed

pub record Authenticator : Type 0 where
  pub key_provider : Option StaticKeyProvider
  pub expected_issuer : Text
  pub expected_audience : Text
  pub collector : Bool
  pub jwt : Jwt
  pub parse_uuid : Text → Option ℕ

-- `SplitN` at the first space.
unfoldable pub split_space : Text → Option (Text × Text)
split_space [] = none
split_space (c ∷ s) =
    if c == 0x20
    then some ([], s)
    else (elim (split_space s) [ none ↦ none | some (before, after) ↦ some (c ∷ before, after) ])

abbrev pub checked_scheme : Option (Text × Text) → Option Text
checked_scheme none = none
checked_scheme (some (scheme, rest)) =
    if text_eq (to_lower scheme) (runes "bearer") && not (is_empty (trim_space rest))
    then some (trim_space rest)
    else none

-- The token of the header `Authorization`.
unfoldable pub bearer_token : Text → Option Text
unfolding split_space
bearer_token header = checked_scheme (split_space header)

-- The key function: HS256 only.
unfoldable pub hs256_key : Text → Text → Option Text
hs256_key secret algorithm = if text_eq algorithm (runes "HS256") then some secret else none

abbrev pub parse_with : Jwt → ℕ → Text → Text → Parsed
parse_with jwt now token secret = jwt.parse (hs256_key secret) now token

abbrev pub valid_or : Parsed → Option Claims → Option Claims
valid_or (valid_token claims) other = some claims
valid_or no_token other = other
valid_or invalid_token other = other

-- The loop over all keys but the active one.
unfoldable pub try_keys : Jwt → ℕ → Text → Text → Keys → Option Claims
try_keys jwt now token active_id [] = none
try_keys jwt now token active_id ((id, secret) ∷ keys) =
    let rest = try_keys jwt now token active_id keys in
    if text_eq id active_id then rest else valid_or (parse_with jwt now token secret) rest

-- A token without a key id: the active key if there is one, then the others.
unfoldable pub parse_legacy : Jwt → ℕ → StaticKeyProvider → Text → Option Claims
unfolding try_keys
parse_legacy jwt now p token =
    let (active_id, secret) = active_key p in
    valid_or (if is_empty secret then no_token else parse_with jwt now token secret)
      (try_keys jwt now token active_id (all_keys p))

abbrev pub parse_with_key : Jwt → ℕ → Text → Option Text → Option Claims
parse_with_key jwt now token none = none
parse_with_key jwt now token (some secret) = valid_or (parse_with jwt now token secret) none

abbrev pub parse_by_header : Jwt → ℕ → StaticKeyProvider → Text → Option KeyIdHeader → Option Claims
parse_by_header jwt now p token (some (key_id kid)) = parse_with_key jwt now token (get_key p kid)
parse_by_header jwt now p token (some not_a_string) = none
parse_by_header jwt now p token (some absent) = parse_legacy jwt now p token
parse_by_header jwt now p token none = parse_legacy jwt now p token

unfoldable pub parse_token : Jwt → ℕ → StaticKeyProvider → Text → Option Claims
unfolding parse_legacy
parse_token jwt now p token = parse_by_header jwt now p token (jwt.header token)

-- `.(string)`.
abbrev pub string_of : Option Json → Option Text
string_of (some (string s)) = some s
string_of _ = none

abbrev pub text_or_empty : Option Text → Text
text_or_empty none = []
text_or_empty (some s) = s

-- An expected value that is empty is not compared.
abbrev pub as_expected : Text → Option Text → Bool
as_expected expected none = is_empty expected
as_expected expected (some s) = is_empty expected || text_eq s expected

abbrev pub with_username : Text → Option Text → Option ℕ → Option UserIdentity
with_username role none id = none
with_username role (some username) none = none
with_username role (some username) (some id) =
    if is_empty (trim_space username)
    then none
    else if role_valid role
    then some (record { id = id; username = username; role = role })
    else none

unfoldable pub identity_of : Authenticator → Claims → Option UserIdentity
identity_of a claims =
    if as_expected a.expected_issuer (string_of (claims (runes "iss")))
      && as_expected a.expected_audience (string_of (claims (runes "aud")))
    then with_username (text_or_empty (string_of (claims (runes "role"))))
        (string_of (claims (runes "username")))
        (a.parse_uuid (text_or_empty (string_of (claims (runes "sub")))))
    else none

abbrev pub identified : Authenticator → Option Claims → Option UserIdentity
identified a none = none
identified a (some claims) = identity_of a claims

abbrev pub identify :
    Authenticator → ℕ → Option StaticKeyProvider → Option Text → Option UserIdentity
identify a now none token = none
identify a now (some p) none = none
identify a now (some p) (some token) = identified a (parse_token a.jwt now p token)

-- `AuthenticateWithKeyProvider` on the header `Authorization`: the identity of the request.
unfoldable pub authenticate : Authenticator → ℕ → Text → Option UserIdentity
unfolding parse_token identity_of bearer_token
authenticate a now header = identify a now a.key_provider (bearer_token header)

abbrev pub or_unauthorized : Bool → Option UserIdentity → Action UserIdentity
or_unauthorized collector (some identity) = pure identity
or_unauthorized collector none =
    record_metric collector (auth_failure "unauthorized") >> raise (domain unauthorized)

unfoldable pub authenticated : Authenticator → ℕ → Text → Action UserIdentity
authenticated a now header = or_unauthorized a.collector (authenticate a now header)
