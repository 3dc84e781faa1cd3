-- ===== src/Http/Validation.antt =====
-- internal/httpapi/validation/validation.go. The engine of go-playground/validator, which reads the
-- tags of a struct's fields, is a parameter.
use Prim.Native.String.{String, ◌++◌ as ◌<>◌}
use text.Mathlib.Text.{◌==◌ as str_eq}
use disbursment_api.Base.{
  Bool, false, ◌||◌, Option, none, some, List, [], ◌∷◌, length, map, ltb, if◌then◌else◌,
}
use disbursment_api.Base.Int.{ℤ, pos, int64, ◌+ℤ◌, ◌*ℤ◌, sub_ℕ, leb_ℤ, ltb_ℤ}
use disbursment_api.Base.Text.{Text}
use disbursment_api.Failure.{FieldError}

pub data Value : Type 0 where
  str : Text → Value
  int : ℤ → Value

-- A field of a struct: its name, its `json` and `validate` tags, and its value.
pub record Field : Type 0 where
  pub go_name : String
  pub json : String
  pub validate : String
  pub value : Value

-- What the engine is given, and what it reports.
pub record NamedField : Type 0 where
  pub name : String
  pub tags : String
  pub value : Value

pub record Violation : Type 0 where
  pub field : String
  pub tag : String
  pub param : String

pub data Checked : Type 0 where
  passed other_error : Checked
  violations : List Violation → Checked

-- The engine with the one validation that the source registers.
pub record Engine : Type 0 where
  pub check_struct : (Value → Text → Bool) → List NamedField → Checked

-- The names of the tags have no comma, so that `Split(tag, ",")[0]` is the tag.
abbrev pub json_field_name : Field → String
json_field_name field =
    if str_eq field.json "" || str_eq field.json "-" then field.go_name else field.json

-- The loop of `parseMaximum`, in 64 bits.
unfoldable pub parse_digits : ℤ → Text → Option ℤ
parse_digits maximum [] = some maximum
parse_digits maximum (c ∷ s) =
    let rest = parse_digits (int64 (int64 (maximum *ℤ pos 10) +ℤ sub_ℕ c 48)) s in
    if ltb c 48 || ltb 57 c then none else rest

abbrev pub positive : Option ℤ → Option ℤ
positive none = none
positive (some maximum) = if ltb_ℤ (pos 0) maximum then some maximum else none

unfoldable pub parse_maximum : Text → Option ℤ
unfolding parse_digits
parse_maximum value = positive (parse_digits (pos 0) value)

abbrev pub at_most : Option ℤ → Value → Bool
at_most none value = false
at_most (some maximum) (int n) = false
at_most (some maximum) (str s) = leb_ℤ (pos (length s)) maximum

unfoldable pub max_characters : Value → Text → Bool
unfolding parse_maximum
max_characters value param = at_most (parse_maximum param) value

unfoldable pub message_for : Violation → String
message_for v =
    if str_eq v.tag "required"
    then "wajib diisi"
    else if str_eq v.tag "gte"
    then "harus lebih besar atau sama dengan " <> v.param
    else if str_eq v.tag "lte"
    then "harus lebih kecil atau sama dengan " <> v.param
    else if str_eq v.tag "min"
    then "panjang minimum " <> v.param
    else if str_eq v.tag "max" || str_eq v.tag "maxchars"
    then "panjang maksimum " <> v.param
    else if str_eq v.tag "numeric"
    then "harus berupa angka"
    else if str_eq v.tag "alphanum"
    then "harus alfanumerik"
    else if str_eq v.tag "oneof"
    then "nilai tidak didukung"
    else if str_eq v.tag "datetime"
    then "format tanggal tidak valid"
    else "tidak valid"

unfoldable pub to_field_errors : List Violation → List FieldError
unfolding message_for
to_field_errors vs = map (λ v. record { field = v.field; message = message_for v }) vs

abbrev pub errors_of : Checked → List FieldError
errors_of passed = []
errors_of other_error = (record { field = "body"; message = "Input tidak valid" }) ∷ []
errors_of (violations vs) = to_field_errors vs

-- `Validate`.
unfoldable pub validate : Engine → List Field → List FieldError
unfolding max_characters to_field_errors
validate engine fields = errors_of (
    engine.check_struct max_characters
      (map (λ f. record { name = json_field_name f; tags = f.validate; value = f.value }) fields))
