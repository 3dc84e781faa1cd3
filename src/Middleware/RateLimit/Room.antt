-- ===== src/Middleware/RateLimit/Room.antt =====
-- internal/httpapi/middleware/rate_limit.go: how many clients are tracked, and that an eviction finds
-- one to delete.
use disbursment_api.Base.{
  ℕ, suc, ◌+◌, ◌≤◌, ◌≡◌, refl, ap, ◌∙◌, ◌⊎◌, inl, inr, Bool, not, Option, none, some, List, [], ◌∷◌,
  length, keep, count, All, arith, Bool-cases, ltb,
}
use disbursment_api.Base.Text.{Text, text_eq, text_eq-same}
use disbursment_api.Middleware.RateLimit.{
  Client, valid_times, keep_client, cleanup_expired, times_of, set_times, last, older, least_recent,
  deleted_from, evict_least_recent, in_window,
}

-- A tracked client has times, and no more than the limit.
abbrev pub Sized : ℕ → Client → Type 0
Sized limit c = (1 ≤ length c.times) × (length c.times ≤ limit)

pub length-keep {ℓ} : {A : Type ℓ} (p : A → Bool) (xs : List A) → length (keep p xs) ≤ length xs
length-keep p [] = ground arith
length-keep p (x ∷ xs) = ground (arith, length-keep p xs)

keep_client-Sized :
    (limit : ℕ) (c : Client) (times : List ℕ) (rest : List Client)
    → length times ≤ limit
    → All (Sized limit) rest
    → All (Sized limit) (keep_client c times rest)
keep_client-Sized limit c [] rest few h = h
keep_client-Sized limit c (t ∷ ts) rest few h = ((ground arith, few), h)

length-keep_client :
    (c : Client) (times : List ℕ) (rest : List Client)
    → length (keep_client c times rest) ≤ suc (length rest)
length-keep_client c [] rest = ground arith
length-keep_client c (t ∷ ts) rest = ground arith

pub cleanup_expired-Sized :
    (limit now window : ℕ) (cs : List Client)
    → All (Sized limit) cs
    → All (Sized limit) (cleanup_expired now window cs)
unfolding cleanup_expired
cleanup_expired-Sized limit now window [] h = tt
cleanup_expired-Sized limit now window (c ∷ cs) h =
    let shorter = length-keep (in_window now window) c.times in
    keep_client-Sized limit c _ _ (ground (arith, shorter, h.0.1))
      (cleanup_expired-Sized limit now window cs h.1)

pub length-cleanup_expired :
    (now window : ℕ) (cs : List Client) → length (cleanup_expired now window cs) ≤ length cs
unfolding cleanup_expired
length-cleanup_expired now window [] = ground arith
length-cleanup_expired now window (c ∷ cs) =
    let one =
      length-keep_client c (valid_times now window c.times) (cleanup_expired now window cs) in
    let rest = length-cleanup_expired now window cs in ground (arith, one, rest)

pub set_times-Sized :
    (limit : ℕ) (ip : Text) (times : List ℕ) (cs : List Client)
    → 1 ≤ length times
    → length times ≤ limit
    → All (Sized limit) cs
    → All (Sized limit) (set_times ip times cs)
unfolding set_times
set_times-Sized limit ip times [] some_times few h = ((some_times, few), tt)
set_times-Sized limit ip times (c ∷ cs) some_times few h = elim (Bool-cases (text_eq c.ip ip)) [
  | inl same ↦ rw same ((some_times, few), h.1)
  | inr other ↦ rw other (h.0, set_times-Sized limit ip times cs some_times few h.1)
]

-- A client that is there is overwritten; a new one takes one place.
pub length-set_times :
    (ip : Text) (times : List ℕ) (cs : List Client)
    → length (set_times ip times cs) ≤ suc (length cs)
unfolding set_times
length-set_times ip times [] = ground arith
length-set_times ip times (c ∷ cs) = ground (arith, length-set_times ip times cs)

pub length-set_times_known :
    (ip : Text) (times : List ℕ) (cs : List Client)
    → 1 ≤ length (times_of ip cs)
    → length (set_times ip times cs) ≡ length cs
unfolding set_times times_of
length-set_times_known ip times [] known = ground arith
length-set_times_known ip times (c ∷ cs) known = ground (arith, length-set_times_known ip times cs)

last-some : (times : List ℕ) → 1 ≤ length times → (t : ℕ) × (last times ≡ some t)
last-some [] h = ground arith
last-some (t ∷ []) h = (t, refl)
last-some (t ∷ u ∷ ts) h = last-some (u ∷ ts) (ground arith)

-- The client that is found is there.
abbrev HasIp : Text × ℕ → List Client → Type 0
HasIp r cs = 1 ≤ count (λ c. text_eq c.ip r.0) cs

HasIp-later : (r : Text × ℕ) (c : Client) (cs : List Client) → HasIp r cs → HasIp r (c ∷ cs)
HasIp-later r c cs h = ground arith

HasIp-here :
    (r : Text × ℕ) (t : ℕ) (c : Client) (cs : List Client) → r ≡ (c.ip, t) → HasIp r (c ∷ cs)
HasIp-here r t c cs e = ground (arith, ap (λ x. x.0) e, text_eq-same c.ip)

least_recent-step :
    (found : Option (Text × ℕ)) (c : Client) (cs : List Client) (t : ℕ)
    → last c.times ≡ some t
    → least_recent found (c ∷ cs) ≡ least_recent (some (older c.ip t found)) cs
unfolding least_recent
least_recent-step found c cs t h = rw h refl

older-cases :
    (ip : Text) (t : ℕ) (found : Text × ℕ)
    → (older ip t (some found) ≡ found) ⊎ (older ip t (some found) ≡ (ip, t))
older-cases ip t (oldest_ip, oldest) = elim (Bool-cases (ltb t oldest)) [
  | inl before ↦ inr (rw before refl)
  | inr after ↦ inl (rw after refl)
]

least_recent-some :
    (limit : ℕ) (found : Text × ℕ) (cs : List Client)
    → All (Sized limit) cs
    → (r : Text × ℕ) × (least_recent (some found) cs ≡ some (some r)) × ((r ≡ found) ⊎ HasIp r cs)
unfolding least_recent
least_recent-some limit found [] h = (found, refl, inl refl)
least_recent-some limit found (c ∷ cs) h =
    let (t, at_end) = last-some c.times h.0.0 in
    let (r, is_r, from) = least_recent-some limit (older c.ip t (some found)) cs h.1 in
    (
      r,
      least_recent-step (some found) c cs t at_end ∙ is_r,
      elim from [
        | inr later ↦ inr (HasIp-later r c cs later)
        | inl first ↦ elim (older-cases c.ip t found) [
          | inl old ↦ inl (first ∙ old)
          | inr new ↦ inr (HasIp-here r t c cs (first ∙ new))
        ]
      ],
    )

length-delete :
    (ip : Text) (cs : List Client)
    → length (keep (λ c. not (text_eq c.ip ip)) cs) + count (λ c. text_eq c.ip ip) cs ≡ length cs
length-delete ip [] = ground arith
length-delete ip (c ∷ cs) = ground (arith, length-delete ip cs)

keep-Sized :
    (limit : ℕ) (p : Client → Bool) (cs : List Client)
    → All (Sized limit) cs
    → All (Sized limit) (keep p cs)
keep-Sized limit p [] h = tt
keep-Sized limit p (c ∷ cs) h = elim (Bool-cases (p c)) [
  | inl hit ↦ rw hit (h.0, keep-Sized limit p cs h.1)
  | inr missed ↦ rw missed (keep-Sized limit p cs h.1)
]

-- An eviction among tracked clients does not panic, and makes room for one.
pub record Evicts (limit : ℕ) (cs : List Client) : Type 0 where
  pub left : List Client
  pub works : evict_least_recent cs ≡ some left
  pub shorter : suc (length left) ≤ length cs
  pub sized : All (Sized limit) left

pub evict_least_recent-Evicts :
    (limit : ℕ) (cs : List Client) → All (Sized limit) cs → 1 ≤ length cs → Evicts limit cs
unfolding evict_least_recent
evict_least_recent-Evicts limit [] h some_client = ground arith
evict_least_recent-Evicts limit (c ∷ cs) h some_client =
    let (t, at_end) = last-some c.times h.0.0 in
    let (r, is_r, from) = least_recent-some limit (c.ip, t) cs h.1 in
    let there : HasIp r (c ∷ cs) = elim from [
      | inl first ↦ HasIp-here r t c cs first
      | inr later ↦ HasIp-later r c cs later
    ] in
    record {
      left = keep (λ d. not (text_eq d.ip r.0)) (c ∷ cs);
      works = ap (deleted_from (c ∷ cs)) (least_recent-step none c cs t at_end ∙ is_r);
      shorter = ground (arith, length-delete r.0 (c ∷ cs), there);
      sized = keep-Sized limit (λ d. not (text_eq d.ip r.0)) (c ∷ cs) h;
    }
