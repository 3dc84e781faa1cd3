-- ===== src/Domain/KeyProvider/Rotation.antt =====
-- internal/domain/keyprovider.go: tokens outlive a change of the signing key.
use disbursment_api.Base.{
  ◌≡◌, refl, Bool-cases, inl, inr, ◌∙◌, ap, false, some, [], ◌∷◌, keep, arith,
}
use disbursment_api.Base.Text.{Text, is_empty, text_eq, text_eq_sound, text_eq-same}
use disbursment_api.Domain.KeyProvider.{
  Keys, StaticKeyProvider, lookup, usable, new_static_key_provider, active_key, get_key,
}

-- The constructor drops no key that has a name and a secret.
lookup-keep :
    (k v : Text) (m : Keys)
    → is_empty k ≡ false
    → is_empty v ≡ false
    → lookup k m ≡ some v
    → lookup k (keep usable m) ≡ some v
unfolding lookup
lookup-keep k v [] known secret found = found
lookup-keep k v ((j, w) ∷ m) known secret found = elim (Bool-cases (text_eq j k)) [
  | inl same ↦
      let j_known : is_empty j ≡ false = ap is_empty (text_eq_sound j k same) ∙ known in
      ground (arith, same, known, secret, found)
  | inr differs ↦
      let rest = lookup-keep k v m known secret in
      elim (Bool-cases (usable (j, w))) [
        | inl kept ↦ ground (arith, differs, rest)
        | inr dropped ↦ ground (arith, differs, rest)
      ]
]

-- Let a provider p sign, so that its active key has a name and a secret. p finds the key that it
-- signs with under that key's name; and so does a new provider with another name for its active key,
-- if that one has a secret, and its legacy keys hold p's active key under its name: what was signed
-- before a change of the key can still be verified after it.
pub get_key-rotated :
    (p : StaticKeyProvider) (key_id secret : Text) (legacy : Keys)
    → is_empty p.active_key_id ≡ false
    → is_empty p.active_secret ≡ false
    → is_empty secret ≡ false
    → text_eq p.active_key_id (new_static_key_provider key_id secret legacy).active_key_id ≡ false
    → lookup p.active_key_id legacy ≡ some p.active_secret
    → (get_key p (active_key p).0 ≡ some (active_key p).1)
      × (get_key (new_static_key_provider key_id secret legacy) (active_key p).0
          ≡ some (active_key p).1)
unfolding get_key active_key new_static_key_provider
get_key-rotated p key_id secret legacy named signs next_signs renamed listed =
    let kept = lookup-keep p.active_key_id p.active_secret legacy named signs listed in
    let same = text_eq-same p.active_key_id in
    (
      rw signs (rw same (rw named refl)),
      rw signs (rw next_signs (rw named (rw renamed (rw kept (rw signs refl))))),
    )
