-- ===== src/Domain/KeyProvider/Held.antt =====
-- internal/domain/keyprovider.go: the provider hands out no secret but those that it was made with.
use disbursment_api.Base.{
  ◌≡◌, refl, false, not, ◌&&◌, ◌||◌, ◌⊎◌, inl, inr, Option, some, none, [], ◌∷◌, keep, arith,
  Bool-cases,
}
use disbursment_api.Base.Text.{Text, is_empty, text_eq}
use disbursment_api.Domain.KeyProvider.{
  Keys, lookup, insert, usable, no_keys, nonempty_secret, new_static_key_provider, active_key,
  get_key, add_all, all_keys,
}

-- A secret stands in a map; and every secret of a map is as a predicate says.
abbrev pub HasSecret : Text → Keys → Type 0
HasSecret secret [] = ⊥
HasSecret secret ((k, v) ∷ m) = (secret ≡ v) ⊎ HasSecret secret m

abbrev pub AllSecrets : (Text → Type 0) → Keys → Type 0
AllSecrets P [] = Unit
AllSecrets P ((k, v) ∷ m) = P v × AllSecrets P m

-- The secrets that a provider is made with, if they are not empty.
abbrev pub Held : Text → Keys → Text → Type 0
Held active legacy secret =
    (is_empty secret ≡ false) × ((secret ≡ active) ⊎ HasSecret secret legacy)

lookup-AllSecrets :
    (P : Text → Type 0) (k secret : Text) (m : Keys)
    → AllSecrets P m
    → lookup k m ≡ some secret
    → P secret
unfolding lookup
lookup-AllSecrets P k secret [] all found = cc
lookup-AllSecrets P k secret ((j, v) ∷ m) all found = elim (Bool-cases (text_eq j k)) [
  | inl same ↦ let first : v ≡ secret = ground (arith, same, found) in rw (← first) all.0
  | inr differs ↦ lookup-AllSecrets P k secret m all.1 (rw differs at found)
]

insert-AllSecrets :
    (P : Text → Type 0) (k v : Text) (m : Keys) → P v → AllSecrets P m → AllSecrets P (insert k v m)
unfolding insert
insert-AllSecrets P k v [] here all = (here, tt)
insert-AllSecrets P k v ((j, w) ∷ m) here all = elim (Bool-cases (text_eq j k)) [
  | inl same ↦ rw same (here, all.1)
  | inr differs ↦ rw differs (all.0, insert-AllSecrets P k v m here all.1)
]

add_all-AllSecrets :
    (P : Text → Type 0) (legacy all : Keys)
    → AllSecrets P legacy
    → AllSecrets P all
    → AllSecrets P (add_all legacy all)
unfolding add_all
add_all-AllSecrets P [] all good so_far = so_far
add_all-AllSecrets P ((k, v) ∷ legacy) all good so_far =
    add_all-AllSecrets P legacy (insert k v all) good.1 (insert-AllSecrets P k v all good.0 so_far)

-- The constructor's loop keeps secrets that stand in the map it was given, and none that is empty.
keep-AllSecrets :
    (active : Text) (all legacy : Keys)
    → ((secret : Text) → HasSecret secret legacy → HasSecret secret all)
    → AllSecrets (Held active all) (keep usable legacy)
keep-AllSecrets active all [] within = tt
keep-AllSecrets active all ((k, v) ∷ legacy) within =
    let rest = keep-AllSecrets active all legacy (λ secret h. within secret (inr h)) in
    elim (Bool-cases (usable (k, v))) [
      | inl kept ↦ rw kept ((ground arith, inr (within v (inl refl))), rest)
      | inr dropped ↦ rw dropped rest
    ]

nonempty_secret-Held :
    (active : Text) (legacy : Keys) (o : Option Text) (secret : Text)
    → ((s : Text) → o ≡ some s → Held active legacy s)
    → nonempty_secret o ≡ some secret
    → Held active legacy secret
nonempty_secret-Held active legacy none secret h found = cc
nonempty_secret-Held active legacy (some s) secret h found = elim (Bool-cases (is_empty s)) [
  | inl empty ↦ absurd (ground (arith, empty, found))
  | inr filled ↦ let same : s ≡ secret = ground (arith, filled, found) in rw (← same) (h s refl)
]

module _ (id active : Text) (legacy : Keys) where
  active-Held : is_empty active ≡ false → Held active legacy active
  active-Held filled = (filled, inl refl)

  legacy-Held :
      AllSecrets (Held active legacy) (new_static_key_provider id active legacy).legacy_keys
  unfolding new_static_key_provider
  legacy-Held = keep-AllSecrets active legacy legacy (λ secret h. h)

  pub get_key-Held :
      (kid secret : Text)
      → get_key (new_static_key_provider id active legacy) kid ≡ some secret
      → Held active legacy secret
  unfolding get_key new_static_key_provider
  get_key-Held kid secret found =
      let p = new_static_key_provider id active legacy in
      let direct = (is_empty kid || text_eq kid p.active_key_id) && not (is_empty active) in
      elim (Bool-cases (is_empty active && no_keys p.legacy_keys)) [
        | inl nothing ↦ absurd (ground (arith, nothing, found))
        | inr something ↦ elim (Bool-cases direct) [
          | inl active_one ↦
              let same : active ≡ secret = ground (arith, something, active_one, found) in
              rw (← same) (active-Held (ground (arith, active_one)))
          | inr legacy_one ↦
              nonempty_secret-Held active legacy (lookup kid p.legacy_keys) secret
                (λ s. lookup-AllSecrets (Held active legacy) kid s p.legacy_keys legacy-Held)
                (ground (arith, something, legacy_one, found))
        ]
      ]

  pub all_keys-Held :
      AllSecrets (Held active legacy) (all_keys (new_static_key_provider id active legacy))
  unfolding all_keys new_static_key_provider
  all_keys-Held = elim (Bool-cases (is_empty active)) [
    | inl empty ↦ rw empty (add_all-AllSecrets _ _ _ legacy-Held tt)
    | inr filled ↦ rw filled (add_all-AllSecrets _ _ _ legacy-Held (active-Held filled, tt))
  ]

  pub active_key-Held :
      is_empty (active_key (new_static_key_provider id active legacy)).1 ≡ false
      → Held active legacy (active_key (new_static_key_provider id active legacy)).1
  unfolding active_key new_static_key_provider
  active_key-Held filled = elim (Bool-cases (is_empty active)) [
    | inl empty ↦ absurd (ground (arith, empty, filled))
    | inr some_secret ↦ rw some_secret (active-Held some_secret)
  ]
