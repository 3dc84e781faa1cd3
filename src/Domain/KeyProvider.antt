-- ===== src/Domain/KeyProvider.antt =====
-- internal/domain/keyprovider.go: the active signing key and the legacy verification keys.
-- A map is an association list whose keys differ; Go's iteration order over it is not fixed.
pub mod Rotation
pub mod Held
use disbursment_api.Base.{
  Bool, true, false, not, ◌&&◌, ◌||◌, Option, none, some, List, [], ◌∷◌, keep, if◌then◌else◌,
}
use disbursment_api.Base.Text.{Text, is_empty, text_eq, runes}

abbrev pub Keys : Type 0
Keys = List (Text × Text)

pub record StaticKeyProvider : Type 0 where
  pub active_key_id : Text
  pub active_secret : Text
  pub legacy_keys : Keys

-- `m[k]` with its second result, and `m[k] = v`.
unfoldable pub lookup : Text → Keys → Option Text
lookup k [] = none
lookup k ((j, v) ∷ m) = if text_eq j k then some v else lookup k m

unfoldable pub insert : Text → Text → Keys → Keys
insert k v [] = (k, v) ∷ []
insert k v ((j, w) ∷ m) = if text_eq j k then (k, v) ∷ m else (j, w) ∷ insert k v m

abbrev pub usable : Text × Text → Bool
usable (k, v) = not (is_empty k) && not (is_empty v)

unfoldable pub new_static_key_provider : Text → Text → Keys → StaticKeyProvider
new_static_key_provider active_key_id active_secret legacy_keys = record {
  active_key_id = if is_empty active_key_id then runes "v1" else active_key_id;
  active_secret = active_secret;
  legacy_keys = keep usable legacy_keys;
}

unfoldable pub active_key : StaticKeyProvider → Text × Text
active_key p = if is_empty p.active_secret then ([], []) else (p.active_key_id, p.active_secret)

abbrev pub nonempty_secret : Option Text → Option Text
nonempty_secret none = none
nonempty_secret (some secret) = if is_empty secret then none else some secret

abbrev pub no_keys : Keys → Bool
no_keys [] = true
no_keys (k ∷ ks) = false

unfoldable pub get_key : StaticKeyProvider → Text → Option Text
get_key p key_id =
    if is_empty p.active_secret && no_keys p.legacy_keys
    then none
    else if (is_empty key_id || text_eq key_id p.active_key_id) && not (is_empty p.active_secret)
    then some p.active_secret
    else nonempty_secret (lookup key_id p.legacy_keys)

-- The loop of `AllKeys`: every legacy key is written over what is there.
unfoldable pub add_all : Keys → Keys → Keys
unfolding insert
add_all [] all = all
add_all ((k, v) ∷ legacy) all = add_all legacy (insert k v all)

unfoldable pub all_keys : StaticKeyProvider → Keys
unfolding add_all
all_keys p =
    add_all p.legacy_keys
      (if is_empty p.active_secret then [] else (p.active_key_id, p.active_secret) ∷ [])
