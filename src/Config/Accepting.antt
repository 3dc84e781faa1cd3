-- ===== src/Config/Accepting.antt =====
-- internal/config/config.go: what holds of a value that a reading of the environment accepts.
use Prim.Native.String.{String}
use disbursment_api.Base.{
  ℕ, ◌<◌, ◌≡◌, refl, Bool, ◌||◌, true, false, ◌⊎◌, inl, inr, Option, none, some, List, [], ◌∷◌,
  arith, Bool-cases, All, if◌then◌else◌,
}
use disbursment_api.Base.Int.{ℤ, pos, ltb_ℤ, ◌≤ℤ◌}
use disbursment_api.Base.Text.{Text, is_empty, text_eq, trim_space}
use disbursment_api.Domain.KeyProvider.{Keys, insert}
use disbursment_api.Config.Reading.{
  Rejection, not_positive_duration, below_minimum, empty_proxy, Outcome, rejected, accepted, ◌>>=◌,
  Parsers, Environment, string_value, at_least, read_duration, read_int, split,
}
use disbursment_api.Config.Loading.{
  check, check_network, validate_trusted_proxy, validate_proxies, put_pair, put_pairs,
  legacy_keys_of,
}

pub record Accepts {A : Type 0} (P : A → Type 0) (m : Outcome A) : Type 0 where
  pub run : (a : A) → m ≡ accepted a → P a

pub pure-Accepts : {A : Type 0} {P : A → Type 0} (a : A) → P a → Accepts P (accepted a)
pure-Accepts {P} a p = record { run = λ b e. let same : a ≡ b = cc e in rw (← same) p }

pub rejected-Accepts : {A : Type 0} {P : A → Type 0} (e : Rejection) → Accepts P (rejected e)
rejected-Accepts e = record { run = λ b h. absurd (cc h) }

pub bind-Accepts :
    {A B : Type 0} {Q : A → Type 0} {P : B → Type 0} {m : Outcome A} {f : A → Outcome B}
    → Accepts Q m
    → ((a : A) → Q a → Accepts P (f a))
    → Accepts P (m >>= f)
unfolding ◌>>=◌
bind-Accepts {m = rejected e} h k = record { run = λ b e. absurd (cc e) }
bind-Accepts {m = accepted a} h k = k a (h.run a refl)

pub if-Accepts :
    {A : Type 0} {P : A → Type 0} {m n : Outcome A} (b : Bool)
    → (b ≡ true → Accepts P m)
    → (b ≡ false → Accepts P n)
    → Accepts P (if b then m else n)
if-Accepts true hm hn = hm refl
if-Accepts false hm hn = hn refl

at_least-Accepts :
    (minimum : ℤ) (e : Rejection) (o : Option ℤ)
    → Accepts (λ d. minimum ≤ℤ d) (at_least minimum e o)
at_least-Accepts minimum e none = rejected-Accepts e
at_least-Accepts minimum e (some n) =
    if-Accepts (ltb_ℤ n minimum) (λ small. rejected-Accepts e)
      (λ large. pure-Accepts n (ground arith))

module _ (parsers : Parsers) (env : Environment) (name : String) where
  pub read_duration-Accepts :
      (fallback : ℤ)
      → pos 1 ≤ℤ fallback
      → Accepts (λ d. pos 1 ≤ℤ d) (read_duration parsers env name fallback)
  unfolding read_duration
  read_duration-Accepts fallback h =
      let value = trim_space (env name) in
      let e = not_positive_duration name in
      if-Accepts {n = at_least (pos 1) e (parsers.duration value)} (is_empty value)
        (λ unset. pure-Accepts fallback h)
        (λ set. at_least-Accepts (pos 1) e (parsers.duration value))

  pub read_int-Accepts :
      (fallback minimum : ℤ)
      → minimum ≤ℤ fallback
      → Accepts (λ n. minimum ≤ℤ n) (read_int parsers env name fallback minimum)
  unfolding read_int
  read_int-Accepts fallback minimum h =
      let value = trim_space (env name) in
      let e = below_minimum name minimum in
      if-Accepts {n = at_least minimum e (parsers.integer value)} (is_empty value)
        (λ unset. pure-Accepts fallback h)
        (λ set. at_least-Accepts minimum e (parsers.integer value))

pub check-Accepts : (b : Bool) (e : Rejection) → Accepts (λ u. b ≡ false) (check b e)
check-Accepts true e = rejected-Accepts e
check-Accepts false e = pure-Accepts tt refl

-- A proxy is one address, or a network with a prefix.
abbrev pub Narrow : Parsers → Text → Type 0
Narrow parsers proxy =
    (parsers.is_ip (trim_space proxy) ≡ true)
    ⊎ ((ones : ℕ) × (bits : ℕ) × (parsers.cidr (trim_space proxy) ≡ some (ones, bits))
        × ((0 < ones) ⊎ (bits ≡ 0)))

check_network-Accepts :
    (parsers : Parsers) (proxy : Text) (o : Option (ℕ × ℕ))
    → parsers.cidr (trim_space proxy) ≡ o
    → Accepts (λ u. Narrow parsers proxy) (check_network (trim_space proxy) o)
check_network-Accepts parsers proxy none e = rejected-Accepts _
check_network-Accepts parsers proxy (some (ones, bits)) e = record {
  run = λ u h.
      let narrow = (check-Accepts _ _).run u h in inr (ones, bits, e, ground (arith, narrow));
}

pub validate_trusted_proxy-Accepts :
    (parsers : Parsers) (proxy : Text)
    → Accepts (λ u. Narrow parsers proxy) (validate_trusted_proxy parsers proxy)
unfolding validate_trusted_proxy
validate_trusted_proxy-Accepts parsers proxy =
    let narrow = check_network-Accepts parsers proxy (parsers.cidr (trim_space proxy)) refl in
    if-Accepts (is_empty (trim_space proxy)) (λ empty. rejected-Accepts empty_proxy)
      (λ filled.
        if-Accepts (parsers.is_ip (trim_space proxy)) (λ one. pure-Accepts tt (inl one))
          (λ many. narrow))

pub validate_proxies-Accepts :
    (parsers : Parsers) (proxies : List Text)
    → Accepts (λ u. All (Narrow parsers) proxies) (validate_proxies parsers proxies)
unfolding validate_proxies
validate_proxies-Accepts parsers [] = pure-Accepts tt tt
validate_proxies-Accepts parsers (proxy ∷ proxies) =
    bind-Accepts (validate_trusted_proxy-Accepts parsers proxy) (λ u first. record {
      run = λ v h. (first, (validate_proxies-Accepts parsers proxies).run v h);
    })

-- A legacy key has an id, which is not the active one, and a secret.
abbrev pub IsLegacy : Text → Text × Text → Type 0
IsLegacy active (id, secret) =
    (is_empty id ≡ false) × (is_empty secret ≡ false) × (text_eq id active ≡ false)

insert-IsLegacy :
    (active id secret : Text) (keys : Keys)
    → IsLegacy active (id, secret)
    → All (IsLegacy active) keys
    → All (IsLegacy active) (insert id secret keys)
unfolding insert
insert-IsLegacy active id secret [] here all = (here, tt)
insert-IsLegacy active id secret ((j, v) ∷ keys) here all = elim (Bool-cases (text_eq j id)) [
  | inl same ↦ rw same (here, all.1)
  | inr differs ↦ rw differs (all.0, insert-IsLegacy active id secret keys here all.1)
]

put_pair-Accepts :
    (active pair : Text) (keys : Keys) (o : Option (Text × Text))
    → All (IsLegacy active) keys
    → Accepts (All (IsLegacy active)) (put_pair active pair keys o)
put_pair-Accepts active pair keys none all = rejected-Accepts _
put_pair-Accepts active pair keys (some (id, secret)) all =
    if-Accepts (is_empty id || is_empty secret) (λ bad. rejected-Accepts _)
      (λ good.
        if-Accepts (text_eq id active) (λ same. rejected-Accepts _)
          (λ other.
            pure-Accepts _
              (insert-IsLegacy active id secret keys (ground arith, ground arith, other) all)))

put_pairs-Accepts :
    (active : Text) (keys : Keys) (pairs : List Text)
    → All (IsLegacy active) keys
    → Accepts (All (IsLegacy active)) (put_pairs active keys pairs)
unfolding put_pairs
put_pairs-Accepts active keys [] all = pure-Accepts keys all
put_pairs-Accepts active keys (pair ∷ pairs) all =
    bind-Accepts (put_pair-Accepts active pair keys _ all)
      (λ more better. put_pairs-Accepts active more pairs better)

pub legacy_keys_of-Accepts :
    (env : Environment) (active : Text)
    → Accepts (All (IsLegacy active)) (legacy_keys_of env active)
unfolding legacy_keys_of
legacy_keys_of-Accepts env active =
    let raw = string_value env "JWT_LEGACY_KEYS" [] in
    if-Accepts {n = put_pairs active [] (split 44 raw)} (is_empty raw) (λ unset. pure-Accepts [] tt)
      (λ set. put_pairs-Accepts active [] (split 44 raw) tt)
