-- ===== src/Middleware/RateLimit.antt =====
-- internal/httpapi/middleware/rate_limit.go: the limiter in front of the login. Its map is a list of
-- clients in the order of an iteration, which Go leaves open. A read behind the end of an empty slice
-- would panic: `none`.
pub mod Room
pub mod Bounds
pub mod Tracking
pub mod Own
pub mod Window
use disbursment_api.Base.{
  ℕ, suc, ◌+◌, Bool, true, false, not, ◌&&◌, ◌||◌, Option, none, some, List, [], ◌∷◌, ◌++◌, length,
  keep, ltb, leb, ◌==◌, if◌then◌else◌,
}
use disbursment_api.Base.Int.{ℤ, pos, pos_part, leb_ℤ, int64, ◌*ℤ◌}
use disbursment_api.Base.Text.{Text, text_eq, is_empty, runes}

pub record Client : Type 0 where
  pub ip : Text
  pub times : List ℕ

-- `ipRateLimiter`; its lock makes each request one step.
pub record Limiter : Type 0 where
  pub requests : List Client
  pub limit : ℕ
  pub window : ℕ
  pub cleanup_after : ℕ

-- `newIPRateLimiter`, which panics where it has no limit or a window that is not positive or whose double
-- overflows.
unfoldable pub new_limiter : ℤ → ℤ → Option Limiter
new_limiter limit window =
    if leb_ℤ limit (pos 0)
    then none
    else if leb_ℤ window (pos 0) || leb_ℤ (int64 (pos 2 *ℤ window)) (pos 0)
    then none
    else some (record {
      requests = [];
      limit = pos_part limit;
      window = pos_part window;
      cleanup_after = 0;
    })

abbrev pub max_tracked_clients : ℕ
max_tracked_clients = 10000

-- Whether a time is not older than the window, and the times that are not.
abbrev pub in_window : ℕ → ℕ → ℕ → Bool
in_window now window t = leb now (t + window)

abbrev pub valid_times : ℕ → ℕ → List ℕ → List ℕ
valid_times now window times = keep (in_window now window) times

abbrev pub keep_client : Client → List ℕ → List Client → List Client
keep_client c [] rest = rest
keep_client c (t ∷ ts) rest = record c { times = t ∷ ts } ∷ rest

-- `cleanupExpired`.
unfoldable pub cleanup_expired : ℕ → ℕ → List Client → List Client
cleanup_expired now window [] = []
cleanup_expired now window (c ∷ cs) =
    keep_client c (valid_times now window c.times) (cleanup_expired now window cs)

-- `requests[ip]`, which is empty for a client that is not there, and the assignment to it.
unfoldable pub times_of : Text → List Client → List ℕ
times_of ip [] = []
times_of ip (c ∷ cs) = if text_eq c.ip ip then c.times else times_of ip cs

unfoldable pub set_times : Text → List ℕ → List Client → List Client
set_times ip times [] = record { ip = ip; times = times } ∷ []
set_times ip times (c ∷ cs) =
    if text_eq c.ip ip then record c { times = times } ∷ cs else c ∷ set_times ip times cs

abbrev pub last : List ℕ → Option ℕ
last [] = none
last (t ∷ []) = some t
last (t ∷ u ∷ ts) = last (u ∷ ts)

-- One client of the loop of `evictLeastRecent`, against the oldest one so far.
abbrev pub older : Text → ℕ → Option (Text × ℕ) → Text × ℕ
older ip t none = (ip, t)
older ip t (some (oldest_ip, oldest)) = if ltb t oldest then (ip, t) else (oldest_ip, oldest)

abbrev pub from_last : Option ℕ → (ℕ → Option (Option (Text × ℕ))) → Option (Option (Text × ℕ))
from_last none go_on = none
from_last (some t) go_on = go_on t

unfoldable pub least_recent : Option (Text × ℕ) → List Client → Option (Option (Text × ℕ))
least_recent found [] = some found
least_recent found (c ∷ cs) =
    from_last (last c.times) (λ t. least_recent (some (older c.ip t found)) cs)

abbrev pub delete_client : Option (Text × ℕ) → List Client → List Client
delete_client none cs = cs
delete_client (some (ip, t)) cs = keep (λ c. not (text_eq c.ip ip)) cs

abbrev pub deleted_from : List Client → Option (Option (Text × ℕ)) → Option (List Client)
deleted_from cs none = none
deleted_from cs (some found) = some (delete_client found cs)

-- `evictLeastRecent`.
unfoldable pub evict_least_recent : List Client → Option (List Client)
unfolding least_recent
evict_least_recent cs = deleted_from cs (least_recent none cs)

-- Room for a client that is not tracked, and whether another one has been evicted for it.
abbrev pub evicted : Option (List Client) → Option (List Client × Bool)
evicted none = none
evicted (some cs) = some (cs, true)

unfoldable pub make_room : ℕ → ℕ → List ℕ → List Client → Option (List Client × Bool)
make_room now window times cs =
    if length times == 0 && leb max_tracked_clients (length cs)
    then (let cleaned = cleanup_expired now window cs in
        if leb max_tracked_clients (length cleaned)
        then evicted (evict_least_recent cleaned)
        else some (cleaned, false))
    else some (cs, false)

-- The answer to a request: it goes on, perhaps after an eviction, or is refused with 429.
pub data Verdict : Type 0 where
  allowed : Bool → Verdict
  too_many_requests : Verdict

abbrev pub count_request : ℕ → Limiter → Limiter
count_request now l =
    if leb 256 (l.cleanup_after + 1)
    then record l { requests = cleanup_expired now l.window l.requests; cleanup_after = 0 }
    else record l { cleanup_after = l.cleanup_after + 1 }

abbrev pub admitted :
    Text → List ℕ → Limiter → Option (List Client × Bool) → Option (Verdict × Limiter)
admitted ip times l none = none
admitted ip times l (some (cs, was_evicted)) =
    some (allowed was_evicted, record l { requests = set_times ip times cs })

unfoldable pub judge : Text → ℕ → Limiter → Option (Verdict × Limiter)
unfolding make_room
judge ip now l =
    let times = times_of ip l.requests in
    let valid = valid_times now l.window times in
    if leb l.limit (length valid)
    then some (too_many_requests, record l { requests = set_times ip valid l.requests })
    else admitted ip (valid ++ now ∷ []) l (make_room now l.window times l.requests)

abbrev pub known_ip : Text → Text
known_ip ip = if is_empty ip then runes "unknown" else ip

-- The handler's step.
unfoldable pub request : Text → ℕ → Limiter → Option (Verdict × Limiter)
unfolding judge
request ip now l = judge (known_ip ip) now (count_request now l)
