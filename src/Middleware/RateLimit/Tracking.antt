-- ===== src/Middleware/RateLimit/Tracking.antt =====
-- internal/httpapi/middleware/rate_limit.go: what the map of the limiter has for one client, through its
-- assignments and its cleanups.
use disbursment_api.Base.{
  ℕ, ◌≤◌, ◌≡◌, refl, Bool, true, false, not, Option, none, some, List, [], ◌∷◌, ◌++◌, keep, count,
  arith, Bool-cases, inl, inr,
}
use disbursment_api.Base.Text.{Text, text_eq, text_eq-same, text_eq_sound}
use disbursment_api.Middleware.RateLimit.{
  Client, valid_times, keep_client, cleanup_expired, times_of, set_times, in_window, delete_client,
}

-- Times that are still valid later have been valid before.
pub valid_times-later :
    (before now window : ℕ) (times : List ℕ)
    → before ≤ now
    → valid_times now window (valid_times before window times) ≡ valid_times now window times
valid_times-later before now window [] h = refl
valid_times-later before now window (t ∷ ts) h =
    let rest = valid_times-later before now window ts h in
    elim (Bool-cases (in_window before window t)) [
      | inl fresh ↦ rw fresh (elim (Bool-cases (in_window now window t)) [
        | inl still ↦ rw (still, rest) refl
        | inr late ↦ rw (late, rest) refl
      ])
      | inr old ↦
          let late : in_window now window t ≡ false = ground (arith, old) in
          rw (old, late, rest) refl
    ]

pub valid_times-snoc :
    (now window : ℕ) (times : List ℕ)
    → valid_times now window (times ++ now ∷ []) ≡ valid_times now window times ++ now ∷ []
valid_times-snoc now window [] =
    let fresh : in_window now window now ≡ true = ground arith in rw fresh refl
valid_times-snoc now window (t ∷ ts) =
    let rest = valid_times-snoc now window ts in
    elim (Bool-cases (in_window now window t)) [
      | inl fresh ↦ rw (fresh, rest) refl
      | inr old ↦ rw (old, rest) refl
    ]

other_ip : (a b ip : Text) → text_eq a b ≡ true → text_eq b ip ≡ false → text_eq a ip ≡ false
other_ip a b ip same other = rw (text_eq_sound a b same) other

module _ (ip : Text) where
  abbrev pub is_own : Client → Bool
  is_own c = text_eq c.ip ip

  -- The map has one entry for the client at most.
  abbrev pub IsSingle : List Client → Type 0
  IsSingle cs = count is_own cs ≤ 1

  pub times_of-set_times :
      (times : List ℕ) (cs : List Client) → times_of ip (set_times ip times cs) ≡ times
  unfolding times_of set_times
  times_of-set_times times [] = rw (text_eq-same ip) refl
  times_of-set_times times (c ∷ cs) = elim (Bool-cases (text_eq c.ip ip)) [
    | inl own ↦ rw own (rw own refl)
    | inr other ↦ rw other (rw other (times_of-set_times times cs))
  ]

  pub set_times-IsSingle :
      (times : List ℕ) (cs : List Client) → IsSingle cs → IsSingle (set_times ip times cs)
  unfolding set_times
  set_times-IsSingle times [] h = ground arith
  set_times-IsSingle times (c ∷ cs) h = elim (Bool-cases (text_eq c.ip ip)) [
    | inl own ↦ rw own (rw own (ground (arith, h, own)))
    | inr other ↦ rw other (rw other (set_times-IsSingle times cs (ground (arith, h, other))))
  ]

  module _ (other : Text) (differs : text_eq other ip ≡ false) where
    pub times_of-set_times_other :
        (times : List ℕ) (cs : List Client)
        → times_of ip (set_times other times cs) ≡ times_of ip cs
    unfolding times_of set_times
    times_of-set_times_other times [] = rw differs refl
    times_of-set_times_other times (c ∷ cs) = elim (Bool-cases (text_eq c.ip other)) [
      | inl theirs ↦
          let not_own = other_ip c.ip other ip theirs differs in rw theirs (rw not_own refl)
      | inr unlike ↦ elim (Bool-cases (text_eq c.ip ip)) [
        | inl own ↦ rw unlike (rw own refl)
        | inr not_own ↦ rw unlike (rw not_own (times_of-set_times_other times cs))
      ]
    ]

    pub count-set_times_other :
        (times : List ℕ) (cs : List Client)
        → count is_own (set_times other times cs) ≡ count is_own cs
    unfolding set_times
    count-set_times_other times [] = rw differs refl
    count-set_times_other times (c ∷ cs) = elim (Bool-cases (text_eq c.ip other)) [
      | inl theirs ↦ rw theirs refl
      | inr unlike ↦ rw unlike (ground (arith, count-set_times_other times cs))
    ]

  count-keep_client :
      (c : Client) (times : List ℕ) (rest : List Client)
      → count is_own (keep_client c times rest) ≤ count is_own (c ∷ rest)
  count-keep_client c [] rest = ground arith
  count-keep_client c (t ∷ ts) rest = ground arith

  pub count-cleanup_expired :
      (now window : ℕ) (cs : List Client)
      → count is_own (cleanup_expired now window cs) ≤ count is_own cs
  unfolding cleanup_expired
  count-cleanup_expired now window [] = ground arith
  count-cleanup_expired now window (c ∷ cs) = ground (
    arith,
    count-keep_client c (valid_times now window c.times) (cleanup_expired now window cs),
    count-cleanup_expired now window cs,
  )

  times_of-none : (cs : List Client) → count is_own cs ≡ 0 → times_of ip cs ≡ []
  unfolding times_of
  times_of-none [] h = refl
  times_of-none (c ∷ cs) h = elim (Bool-cases (text_eq c.ip ip)) [
    | inl own ↦ ground (arith, own)
    | inr other ↦ rw other (times_of-none cs (ground (arith, h, other)))
  ]

  times_of-keep_client_own :
      (c : Client) (times : List ℕ) (rest : List Client)
      → text_eq c.ip ip ≡ true
      → times_of ip rest ≡ []
      → times_of ip (keep_client c times rest) ≡ times
  unfolding times_of
  times_of-keep_client_own c [] rest own none_left = none_left
  times_of-keep_client_own c (t ∷ ts) rest own none_left = rw own refl

  times_of-keep_client_other :
      (c : Client) (times : List ℕ) (rest : List Client)
      → text_eq c.ip ip ≡ false
      → times_of ip (keep_client c times rest) ≡ times_of ip rest
  unfolding times_of
  times_of-keep_client_other c [] rest other = refl
  times_of-keep_client_other c (t ∷ ts) rest other = rw other refl

  pub times_of-cleanup_expired :
      (now window : ℕ) (cs : List Client)
      → IsSingle cs
      → times_of ip (cleanup_expired now window cs) ≡ valid_times now window (times_of ip cs)
  unfolding times_of cleanup_expired
  times_of-cleanup_expired now window [] h = refl
  times_of-cleanup_expired now window (c ∷ cs) h = elim (Bool-cases (text_eq c.ip ip)) [
    | inl own ↦
        let none_left : count is_own (cleanup_expired now window cs) ≡ 0 =
          ground (arith, h, own, count-cleanup_expired now window cs) in
        rw own (
          times_of-keep_client_own c _ (cleanup_expired now window cs) own
            (times_of-none (cleanup_expired now window cs) none_left))
    | inr other ↦
        rw
          (
            other,
            times_of-keep_client_other c (valid_times now window c.times)
                (cleanup_expired now window cs) other,
          )
          (times_of-cleanup_expired now window cs (ground (arith, h, other)))
  ]

  count-keep : (p : Client → Bool) (cs : List Client) → count is_own (keep p cs) ≤ count is_own cs
  count-keep p [] = ground arith
  count-keep p (c ∷ cs) = ground (arith, count-keep p cs)

  pub count-delete_client :
      (found : Option (Text × ℕ)) (cs : List Client)
      → count is_own (delete_client found cs) ≤ count is_own cs
  count-delete_client none cs = ground arith
  count-delete_client (some (other, t)) cs = count-keep (λ c. not (text_eq c.ip other)) cs

  times_of-delete_other :
      (other : Text) (cs : List Client)
      → text_eq other ip ≡ false
      → times_of ip (keep (λ c. not (text_eq c.ip other)) cs) ≡ times_of ip cs
  unfolding times_of
  times_of-delete_other other [] differs = refl
  times_of-delete_other other (c ∷ cs) differs =
      let rest = times_of-delete_other other cs differs in
      elim (Bool-cases (text_eq c.ip other)) [
        | inl theirs ↦
            let not_own = other_ip c.ip other ip theirs differs in rw (theirs, not_own) rest
        | inr unlike ↦ elim (Bool-cases (text_eq c.ip ip)) [
          | inl own ↦ rw unlike (rw own refl)
          | inr not_own ↦ rw unlike (rw not_own rest)
        ]
      ]

  -- That the client whom a search has found, if any, is another one.
  abbrev pub IsOther : Option (Text × ℕ) → Type 0
  IsOther none = Unit
  IsOther (some (other, t)) = text_eq other ip ≡ false

  -- An eviction of another client leaves this one its times.
  pub times_of-delete_client :
      (found : Option (Text × ℕ)) (cs : List Client)
      → IsOther found
      → times_of ip (delete_client found cs) ≡ times_of ip cs
  times_of-delete_client none cs other = refl
  times_of-delete_client (some (other, t)) cs differs = times_of-delete_other other cs differs
