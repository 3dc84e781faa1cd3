-- ===== src/Metrics/Labels.antt =====
-- internal/observability/metrics/collector.go: the labels under which a request is counted.
use disbursment_api.Base.{
  ℕ, zero, suc, Bool, true, false, ◌&&◌, ◌||◌, List, [], ◌∷◌, ◌++◌, leb, ◌==◌, if◌then◌else◌,
}
use disbursment_api.Base.Int.{ℤ, pos, leb_ℤ, ltb_ℤ}
use disbursment_api.Base.Text.{Text, runes, is_empty, text_eq}

-- The methods of net/http.
abbrev pub methods : List Text
methods =
    runes "GET"
    ∷ runes "HEAD"
    ∷ runes "POST"
    ∷ runes "PUT"
    ∷ runes "PATCH"
    ∷ runes "DELETE"
    ∷ runes "OPTIONS"
    ∷ runes "CONNECT"
    ∷ runes "TRACE"
    ∷ []

-- The text, if it is one of these.
unfoldable pub one_of : Text → List Text → Text → Text
one_of s [] fallback = fallback
one_of s (t ∷ ts) fallback = if text_eq s t then t else one_of s ts fallback

unfoldable pub normalize_method : Text → Text
unfolding one_of
normalize_method method = one_of method methods (runes "OTHER")

abbrev pub is_hex : ℕ → Bool
is_hex c = (leb 48 c && leb c 57) || (leb 65 c && leb c 70) || (leb 97 c && leb c 102)

abbrev pub digits : ℕ → List Bool → List Bool
digits zero shape = shape
digits (suc n) shape = true ∷ digits n shape

-- Where the regular expression of a UUID has a hexadecimal digit, and where a dash.
abbrev pub uuid_shape : List Bool
uuid_shape =
    digits 8 (false ∷ digits 4 (false ∷ digits 4 (false ∷ digits 4 (false ∷ digits 12 []))))

unfoldable pub fits : List Bool → Text → Bool
fits [] s = true
fits (digit ∷ shape) [] = false
fits (digit ∷ shape) (c ∷ s) = (if digit then is_hex c else c == 45) && fits shape s

-- `ReplaceAllString`, with the number of runes of a match that are still to be passed over.
unfoldable pub replace_ids : ℕ → Text → Text
unfolding fits
replace_ids skip [] = []
replace_ids zero (c ∷ s) = elim (fits uuid_shape (c ∷ s)) [
  | true ↦ runes ":id" ++ replace_ids 35 s
  | false ↦ c ∷ replace_ids zero s
]
replace_ids (suc n) (c ∷ s) = replace_ids n s

unfoldable pub sanitize_path : Text → Text
unfolding replace_ids
sanitize_path path = if is_empty path then runes "/" else replace_ids 0 path

abbrev between : ℕ → ℕ → ℤ → Bool
between low high status = leb_ℤ (pos low) status && ltb_ℤ status (pos high)

unfoldable pub http_status_string : ℤ → Text
http_status_string status =
    if between 200 300 status
    then runes "2xx"
    else if between 300 400 status
    then runes "3xx"
    else if between 400 500 status
    then runes "4xx"
    else if leb_ℤ (pos 500) status
    then runes "5xx"
    else runes "other"

abbrev pub label : Text → Text → Text → Text
label method path status = method ++ (32 ∷ path ++ (32 ∷ status))
