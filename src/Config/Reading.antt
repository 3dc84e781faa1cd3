-- ===== src/Config/Reading.antt =====
-- internal/config/config.go: how one variable of the environment is read, and why one is rejected.
use Prim.Native.String.{String}
use disbursment_api.Base.{
  ℕ, Bool, false, ◌||◌, Option, none, some, List, [], ◌∷◌, ◌==◌, if◌then◌else◌,
}
use disbursment_api.Base.Int.{ℤ, pos, ltb_ℤ}
use disbursment_api.Base.Text.{Text, runes, is_empty, text_eq, trim_space}

-- The errors of the file, with what their messages name.
pub data Rejection : Type 0 where
  missing not_positive_duration : String → Rejection
  below_minimum : String → ℤ → Rejection
  not_postgres_url empty_address empty_token empty_proxy invalid_pool : Rejection
  body_not_positive ttl_not_positive invalid_audit : Rejection
  malformed_pair has_active_key invalid_proxy proxy_of_all short_legacy_secret : Text → Rejection
  short_secret short_token : Rejection

pub data Outcome (A : Type 0) : Type 0 where
  rejected : Rejection → Outcome A
  accepted : A → Outcome A

infixl 10 ◌>>=◌ ◌>>◌
unfoldable pub ◌>>=◌ : {A B : Type 0} → Outcome A → (A → Outcome B) → Outcome B
rejected e >>= f = rejected e
accepted a >>= f = f a

abbrev pub ◌>>◌ : {A B : Type 0} → Outcome A → Outcome B → Outcome B
m >> n = m >>= (λ a. n)

abbrev pub pure : {A : Type 0} → A → Outcome A
pure a = accepted a

-- What url.Parse finds.
pub record Url : Type 0 where
  pub scheme : Text
  pub host : Text

-- The parsers of Go's library, `none` being an error: time.ParseDuration, strconv's, url.Parse,
-- net.ParseIP, and net.ParseCIDR with the ones and the bits of its mask.
pub record Parsers : Type 0 where
  pub duration : Text → Option ℤ
  pub integer : Text → Option ℤ
  pub url : Text → Option Url
  pub is_ip : Text → Bool
  pub cidr : Text → Option (ℕ × ℕ)

-- `os.Getenv`: a variable that is not set is empty.
abbrev pub Environment : Type 0
Environment = String → Text

unfoldable pub string_value : Environment → String → Text → Text
string_value env name fallback =
    let value = trim_space (env name) in if is_empty value then fallback else value

unfoldable pub required : Environment → String → Outcome Text
required env name =
    let value = trim_space (env name) in
    if is_empty value then rejected (missing name) else accepted value

abbrev pub at_least : ℤ → Rejection → Option ℤ → Outcome ℤ
at_least minimum e none = rejected e
at_least minimum e (some n) = if ltb_ℤ n minimum then rejected e else accepted n

-- A duration is positive, where nothing lies between 0 and 1 nanosecond.
unfoldable pub read_duration : Parsers → Environment → String → ℤ → Outcome ℤ
read_duration parsers env name fallback =
    let value = trim_space (env name) in
    if is_empty value
    then accepted fallback
    else at_least (pos 1) (not_positive_duration name) (parsers.duration value)

-- `readInt` and `readInt64`: an int has 64 bits.
unfoldable pub read_int : Parsers → Environment → String → ℤ → ℤ → Outcome ℤ
read_int parsers env name fallback minimum =
    let value = trim_space (env name) in
    if is_empty value
    then accepted fallback
    else at_least minimum (below_minimum name minimum) (parsers.integer value)

abbrev pub is_postgres : Option Url → Bool
is_postgres none = false
is_postgres (some u) =
    if is_empty u.host
    then false
    else text_eq u.scheme (runes "postgres") || text_eq u.scheme (runes "postgresql")

unfoldable pub database_url : Parsers → Environment → Outcome Text
database_url parsers env = do
  raw ← required env "DATABASE_URL"
  if is_postgres (parsers.url raw) then pure raw else rejected not_postgres_url

-- A text in front of the first piece.
abbrev pub onto_first : ℕ → List Text → List Text
onto_first c [] = (c ∷ []) ∷ []
onto_first c (piece ∷ pieces) = (c ∷ piece) ∷ pieces

-- `strings.Split` at a rune.
unfoldable pub split : ℕ → Text → List Text
split mark [] = [] ∷ []
split mark (c ∷ s) =
    let pieces = split mark s in if c == mark then [] ∷ pieces else onto_first c pieces

abbrev pub onto_left : ℕ → Option (Text × Text) → Option (Text × Text)
onto_left c none = none
onto_left c (some (s, t)) = some (c ∷ s, t)

-- `strings.SplitN` into two at a rune; `none` where there is none.
unfoldable pub cut : ℕ → Text → Option (Text × Text)
cut mark [] = none
cut mark (c ∷ s) = let rest = cut mark s in if c == mark then some ([], s) else onto_left c rest
