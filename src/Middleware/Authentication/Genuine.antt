-- ===== src/Middleware/Authentication/Genuine.antt =====
-- internal/httpapi/middleware/auth.go: what a request has shown that is let through.
use disbursment_api.Base.{
  ℕ, ◌≡◌, refl, sym, ◌∙◌, ap, true, false, ◌&&◌, ◌⊎◌, inl, inr, Option, none, some, [], ◌∷◌, arith,
  if◌then◌else◌, Bool-cases, Option-cases,
}
use disbursment_api.Base.Text.{Text, runes, is_empty, text_eq, text_eq_sound, trim_space}
use disbursment_api.Domain.Audit.{Json, string}
use disbursment_api.Domain.KeyProvider.{
  StaticKeyProvider, Keys, new_static_key_provider, active_key, get_key, all_keys,
}
use disbursment_api.Domain.KeyProvider.Held.{
  Held, AllSecrets, get_key-Held, all_keys-Held, active_key-Held,
}
use disbursment_api.Middleware.Roles.{UserIdentity, role_valid}
use disbursment_api.Middleware.Authentication.{
  Claims, Parsed, no_token, invalid_token, valid_token, KeyIdHeader, absent, not_a_string, key_id,
  Jwt, Authenticator, hs256_key, parse_with, try_keys, valid_or, parse_legacy, parse_with_key,
  parse_by_header, parse_token, string_of, text_or_empty, as_expected, with_username, identity_of,
  identify, bearer_token, authenticate,
}

-- Claims that a key of the provider has signed, with HS256.
pub record Signed (jwt : Jwt) (now : ℕ) (active : Text) (legacy : Keys) (token : Text)
    (claims : Claims) : Type 0 where
  pub secret : Text
  pub held : Held active legacy secret
  pub verified : jwt.parse (hs256_key secret) now token ≡ valid_token claims

-- What claims say of an identity, and that they were issued by and for whom is expected.
pub record States (a : Authenticator) (claims : Claims) (identity : UserIdentity) : Type 0 where
  pub issuer :
      (is_empty a.expected_issuer ≡ true) ⊎ (claims (runes "iss") ≡ some (string a.expected_issuer))
  pub audience :
      (is_empty a.expected_audience ≡ true)
      ⊎ (claims (runes "aud") ≡ some (string a.expected_audience))
  pub user : a.parse_uuid (text_or_empty (string_of (claims (runes "sub")))) ≡ some identity.id
  pub name : claims (runes "username") ≡ some (string identity.username)
  pub named : is_empty (trim_space identity.username) ≡ false
  pub role : claims (runes "role") ≡ some (string identity.role)
  pub known_role : role_valid identity.role ≡ true

valid_or-some :
    (parsed : Parsed) (other : Option Claims) (claims : Claims)
    → valid_or parsed other ≡ some claims
    → (parsed ≡ valid_token claims) ⊎ (other ≡ some claims)
valid_or-some (valid_token c) other claims h = inl (cc)
valid_or-some no_token other claims h = inr h
valid_or-some invalid_token other claims h = inr h

string_of-some : (o : Option Json) (s : Text) → string_of o ≡ some s → o ≡ some (string s)
string_of-some (some (string t)) s h = cc
string_of-some none s h = cc
string_of-some (some other) s h = ground arith

module _ (jwt : Jwt) (now : ℕ) (id active : Text) (legacy : Keys) (token : Text) where
  abbrev SignedBy : Claims → Type 0
  SignedBy claims = Signed jwt now active legacy token claims

  try_keys-Signed :
      (active_id : Text) (keys : Keys) (claims : Claims)
      → AllSecrets (Held active legacy) keys
      → try_keys jwt now token active_id keys ≡ some claims
      → SignedBy claims
  unfolding try_keys
  try_keys-Signed active_id [] claims all found = cc
  try_keys-Signed active_id ((k, secret) ∷ keys) claims all found =
      elim (Bool-cases (text_eq k active_id)) [
        | inl same ↦ try_keys-Signed active_id keys claims all.1 (rw same at found)
        | inr other ↦
            elim (valid_or-some (parse_with jwt now token secret)
              (try_keys jwt now token active_id keys) claims (rw other at found)) [
                | inl verified ↦ record { secret = secret; held = all.0; verified = verified }
                | inr later ↦ try_keys-Signed active_id keys claims all.1 later
              ]
      ]

  parse_with_key-Signed :
      (o : Option Text) (claims : Claims)
      → ((secret : Text) → o ≡ some secret → Held active legacy secret)
      → parse_with_key jwt now token o ≡ some claims
      → SignedBy claims
  parse_with_key-Signed none claims h found = cc
  parse_with_key-Signed (some secret) claims h found =
      elim (valid_or-some (parse_with jwt now token secret) none claims found) [
        | inl verified ↦ record { secret = secret; held = h secret refl; verified = verified }
        | inr nothing ↦ absurd (cc)
      ]

  parse_legacy-Signed :
      (claims : Claims)
      → parse_legacy jwt now (new_static_key_provider id active legacy) token ≡ some claims
      → SignedBy claims
  unfolding parse_legacy
  parse_legacy-Signed claims found =
      let p = new_static_key_provider id active legacy in
      let secret = (active_key p).1 in
      elim (valid_or-some (if is_empty secret then no_token else parse_with jwt now token secret)
        (try_keys jwt now token (active_key p).0 (all_keys p)) claims found) [
          | inl verified ↦ elim (Bool-cases (is_empty secret)) [
            | inl empty ↦ absurd (ground (arith, empty, verified))
            | inr filled ↦ record {
              secret = secret;
              held = active_key-Held id active legacy filled;
              verified = rw filled at verified;
            }
          ]
          | inr later ↦
              try_keys-Signed (active_key p).0 (all_keys p) claims (all_keys-Held id active legacy)
                later
        ]

  parse_by_header-Signed :
      (header : Option KeyIdHeader) (claims : Claims)
      → parse_by_header jwt now (new_static_key_provider id active legacy) token header
        ≡ some claims
      → SignedBy claims
  parse_by_header-Signed (some (key_id kid)) claims found =
      parse_with_key-Signed (get_key (new_static_key_provider id active legacy) kid) claims
        (get_key-Held id active legacy kid) found
  parse_by_header-Signed (some not_a_string) claims found = cc
  parse_by_header-Signed (some absent) claims found = parse_legacy-Signed claims found
  parse_by_header-Signed none claims found = parse_legacy-Signed claims found

as_expected-cases :
    (expected : Text) (o : Option Json)
    → as_expected expected (string_of o) ≡ true
    → (is_empty expected ≡ true) ⊎ (o ≡ some (string expected))
as_expected-cases expected o h = elim (Option-cases (string_of o)) [
  | inl missing ↦ inl (rw missing at h)
  | inr (s, found) ↦ elim (Bool-cases (is_empty expected)) [
    | inl empty ↦ inl empty
    | inr filled ↦
        let same : text_eq s expected ≡ true = ground (arith, found, filled, h) in
        inr (string_of-some o s found ∙ ap (λ t. some (string t)) (text_eq_sound s expected same))
  ]
]

with_username-some :
    (role : Text) (username : Option Text) (id : Option ℕ) (identity : UserIdentity)
    → with_username role username id ≡ some identity
    → (username ≡ some identity.username)
      × (id ≡ some identity.id)
      × (role ≡ identity.role)
      × (is_empty (trim_space identity.username) ≡ false)
      × (role_valid identity.role ≡ true)
with_username-some role none id identity h = cc
with_username-some role (some username) none identity h = cc
with_username-some role (some username) (some id) identity h =
    (ground arith, ground arith, ground arith, ground arith, ground arith)

role_of-some :
    (o : Option Json) (role : Text)
    → text_or_empty (string_of o) ≡ role
    → role_valid role ≡ true
    → o ≡ some (string role)
unfolding role_valid text_eq
role_of-some o role same known = elim (Option-cases (string_of o)) [
  | inl missing ↦
      let nobody : role_valid [] ≡ true = ap role_valid (rw missing at same) ∙ known in
      absurd (ground (arith, nobody))
  | inr (s, found) ↦ string_of-some o s found ∙ ap (λ t. some (string t)) (rw found at same)
]

identity_of-States :
    (a : Authenticator) (claims : Claims) (identity : UserIdentity)
    → identity_of a claims ≡ some identity
    → States a claims identity
unfolding identity_of
identity_of-States a claims identity found =
    let issued = as_expected a.expected_issuer (string_of (claims (runes "iss"))) in
    let meant = as_expected a.expected_audience (string_of (claims (runes "aud"))) in
    let role = text_or_empty (string_of (claims (runes "role"))) in
    let username = string_of (claims (runes "username")) in
    let user = a.parse_uuid (text_or_empty (string_of (claims (runes "sub")))) in
    let both : issued && meant ≡ true = ground (arith, found) in
    let accepted : with_username role username user ≡ some identity = ground (arith, found) in
    let (named, known, same_role, filled, valid) =
      with_username-some role username user identity accepted in
    record {
      issuer = as_expected-cases a.expected_issuer (claims (runes "iss")) (ground (arith, both));
      audience =
          as_expected-cases a.expected_audience (claims (runes "aud")) (ground (arith, both));
      user = known;
      name = string_of-some (claims (runes "username")) identity.username named;
      named = filled;
      role = role_of-some (claims (runes "role")) identity.role same_role valid;
      known_role = valid;
    }

identify-some :
    (a : Authenticator) (now : ℕ) (provider : Option StaticKeyProvider) (token : Option Text)
    (identity : UserIdentity)
    → identify a now provider token ≡ some identity
    → (p : StaticKeyProvider) × (t : Text) × (claims : Claims) × (provider ≡ some p)
      × (token ≡ some t)
      × (parse_token a.jwt now p t ≡ some claims)
      × (identity_of a claims ≡ some identity)
identify-some a now none token identity h = cc
identify-some a now (some p) none identity h = cc
identify-some a now (some p) (some token) identity h =
    elim (Option-cases (parse_token a.jwt now p token)) [
      | inl unsigned ↦ absurd (ground (arith, unsigned, h))
      | inr (claims, signed) ↦ (p, token, claims, refl, refl, signed, ground (arith, signed, h))
    ]

pub authenticate-genuine :
    (a : Authenticator) (now : ℕ) (header : Text) (identity : UserIdentity) (id active : Text)
    (legacy : Keys)
    → a.key_provider ≡ some (new_static_key_provider id active legacy)
    → authenticate a now header ≡ some identity
    → (token : Text) × (claims : Claims) × (bearer_token header ≡ some token)
      × Signed a.jwt now active legacy token claims
      × States a claims identity
unfolding authenticate
authenticate-genuine a now header identity id active legacy provider found =
    let (p, token, claims, given, bearer, signed, stated) =
      identify-some a now a.key_provider (bearer_token header) identity found in
    let q = new_static_key_provider id active legacy in
    let same : p ≡ q = ground (arith, given, provider) in
    let signed' : parse_token a.jwt now q token ≡ some claims =
      ap (λ r. parse_token a.jwt now r token) (sym same) ∙ signed in
    (
      token,
      claims,
      bearer,
      parse_by_header-Signed a.jwt now id active legacy token (a.jwt.header token) claims
          (unfold parse_token in signed'),
      identity_of-States a claims identity stated,
    )
