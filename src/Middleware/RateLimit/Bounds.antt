-- ===== src/Middleware/RateLimit/Bounds.antt =====
-- internal/httpapi/middleware/rate_limit.go: the limiter never panics and stays within its bounds.
use disbursment_api.Base.{
  ℕ, suc, ◌+◌, ◌≤◌, ◌≡◌, refl, ap, ◌∙◌, ◌⊎◌, ◌&&◌, Bool, true, false, Option, some, List, [], ◌∷◌,
  ◌++◌, length, All, arith, Bool-cases, inl, inr, leb, ◌==◌,
}
use disbursment_api.Base.Text.{Text}
use disbursment_api.Middleware.RateLimit.{
  Client, Limiter, Verdict, allowed, too_many_requests, max_tracked_clients, in_window, valid_times,
  cleanup_expired, times_of, set_times, evicted, make_room, count_request, admitted, judge,
  known_ip, request,
}
use disbursment_api.Middleware.RateLimit.Room.{
  Sized, length-keep, cleanup_expired-Sized, length-cleanup_expired, set_times-Sized,
  length-set_times, length-set_times_known, evict_least_recent-Evicts,
}

-- Every tracked client has at least one time and at most as many as the limit, and not more clients
-- are tracked than the source allows.
pub record IsTracking (l : Limiter) : Type 0 where
  pub limited : 1 ≤ l.limit
  pub sized : All (Sized l.limit) l.requests
  pub few : length l.requests ≤ max_tracked_clients

pub length-snoc : (xs : List ℕ) (x : ℕ) → length (xs ++ x ∷ []) ≡ suc (length xs)
length-snoc [] x = refl
length-snoc (y ∷ xs) x = ground (arith, length-snoc xs x)

-- What a client finds that has these times: its own place, or a free one.
record HasRoom (limit : ℕ) (times : List ℕ) (cs : List Client)
    (answer : Option (List Client × Bool)) : Type 0 where
  left : List Client
  was_evicted : Bool
  works : answer ≡ some (left, was_evicted)
  sized : All (Sized limit) left
  place : ((1 ≤ length times) × (left ≡ cs)) ⊎ (suc (length left) ≤ max_tracked_clients)

make_room-HasRoom :
    (limit now window : ℕ) (times : List ℕ) (cs : List Client)
    → All (Sized limit) cs
    → length cs ≤ max_tracked_clients
    → HasRoom limit times cs (make_room now window times cs)
unfolding make_room
make_room-HasRoom limit now window times cs h few =
    let cleaned = cleanup_expired now window cs in
    let cleaned_sized = cleanup_expired-Sized limit now window cs h in
    let cleaned_few = length-cleanup_expired now window cs in
    elim (Bool-cases (length times == 0 && leb max_tracked_clients (length cs))) [
      | inr free ↦ rw free (record {
        left = cs;
        was_evicted = false;
        works = refl;
        sized = h;
        place = own_place times cs free few;
      })
      | inl full ↦ elim (Bool-cases (leb max_tracked_clients (length cleaned))) [
        | inr cleared ↦
            rw (full, cleared)
              (record {
                left = cleaned;
                was_evicted = false;
                works = refl;
                sized = cleaned_sized;
                place = inr (ground (arith, cleared));
              })
        | inl crowded ↦
            let e =
              evict_least_recent-Evicts limit cleaned cleaned_sized (ground (arith, crowded)) in
            rw (full, crowded)
              (record {
                left = e.left;
                was_evicted = true;
                works = ap evicted e.works;
                sized = e.sized;
                place = inr (evicted_place cs cleaned e.left e.shorter cleaned_few few);
              })
      ]
    ]
  where
    own_place :
        (times : List ℕ) (cs : List Client)
        → (length times == 0 && leb max_tracked_clients (length cs)) ≡ false
        → length cs ≤ max_tracked_clients
        → ((1 ≤ length times) × (cs ≡ cs)) ⊎ (suc (length cs) ≤ max_tracked_clients)
    own_place [] cs free few = inr (ground arith)
    own_place (t ∷ ts) cs free few = inl (ground arith, refl)

    evicted_place :
        (cs cleaned left : List Client)
        → suc (length left) ≤ length cleaned
        → length cleaned ≤ length cs
        → length cs ≤ max_tracked_clients
        → suc (length left) ≤ max_tracked_clients
    evicted_place cs cleaned left shorter fewer few = ground arith

count_request-IsTracking : (now : ℕ) (l : Limiter) → IsTracking l → IsTracking (count_request now l)
count_request-IsTracking now l h = elim (Bool-cases (leb 256 (l.cleanup_after + 1))) [
  | inl due ↦ rw due (record {
    limited = h.limited;
    sized = cleanup_expired-Sized l.limit now l.window l.requests h.sized;
    few = ground (arith, length-cleanup_expired now l.window l.requests, h.few);
  })
  | inr early ↦ rw early (record { limited = h.limited; sized = h.sized; few = h.few })
]

count_request-limits :
    (now : ℕ) (l : Limiter)
    → ((count_request now l).limit ≡ l.limit) × ((count_request now l).window ≡ l.window)
count_request-limits now l = elim (Bool-cases (leb 256 (l.cleanup_after + 1))) [
  | inl due ↦ rw due (refl, refl)
  | inr early ↦ rw early (refl, refl)
]

-- The step is taken, and the limiter is within its bounds after it.
pub record Judges (l : Limiter) (answer : Option (Verdict × Limiter)) : Type 0 where
  pub verdict : Verdict
  pub after : Limiter
  pub works : answer ≡ some (verdict, after)
  pub tracking : IsTracking after
  pub same_limits : (after.limit ≡ l.limit) × (after.window ≡ l.window)

length-times_of :
    (limit : ℕ) (ip : Text) (cs : List Client)
    → All (Sized limit) cs
    → length (times_of ip cs) ≤ limit
unfolding times_of
length-times_of limit ip [] h = ground arith
length-times_of limit ip (c ∷ cs) h = ground (arith, h.0.1, length-times_of limit ip cs h.1)

module _ (ip : Text) (now : ℕ) (l : Limiter) (h : IsTracking l) where
  refused :
      leb l.limit (length (valid_times now l.window (times_of ip l.requests))) ≡ true
      → IsTracking (record l {
        requests = set_times ip (valid_times now l.window (times_of ip l.requests)) l.requests;
      })
  refused full =
      let valid = valid_times now l.window (times_of ip l.requests) in
      let shorter = length-keep (in_window now l.window) (times_of ip l.requests) in
      let bounded = length-times_of l.limit ip l.requests h.sized in
      let at_least : 1 ≤ length valid = ground (arith, full, h.limited) in
      record {
        limited = h.limited;
        sized =
            set_times-Sized l.limit ip valid l.requests at_least (ground (arith, shorter, bounded))
              h.sized;
        few =
            few_refused
              (length-set_times_known ip valid l.requests (ground (arith, shorter, at_least)))
              h.few;
      }
    where
      few_refused : {n m : ℕ} → n ≡ m → m ≤ max_tracked_clients → n ≤ max_tracked_clients
      few_refused e few = ground arith

  placed :
      (times : List ℕ) (left : List Client)
      → ((1 ≤ length (times_of ip l.requests)) × (left ≡ l.requests))
        ⊎ (suc (length left) ≤ max_tracked_clients)
      → length (set_times ip times left) ≤ max_tracked_clients
  placed times left (inl (known, same)) =
      ground (arith, length-set_times_known ip times l.requests known, same, h.few)
  placed times left (inr free) = ground (arith, length-set_times ip times left, free)

  pub judge-Judges : Judges l (judge ip now l)
  unfolding judge
  judge-Judges =
      let times = times_of ip l.requests in
      let valid = valid_times now l.window times in
      elim (Bool-cases (leb l.limit (length valid))) [
        | inl full ↦ rw full (record {
          verdict = too_many_requests;
          after = record l { requests = set_times ip valid l.requests };
          works = refl;
          tracking = refused full;
          same_limits = (refl, refl);
        })
        | inr under ↦
            let room = make_room-HasRoom l.limit now l.window times l.requests h.sized h.few in
            rw under (record {
              verdict = allowed room.was_evicted;
              after = record l { requests = set_times ip (valid ++ now ∷ []) room.left };
              works = ap (admitted ip (valid ++ now ∷ []) l) room.works;
              tracking = record {
                limited = h.limited;
                sized =
                    set_times-Sized l.limit ip (valid ++ now ∷ []) room.left
                      (ground (arith, length-snoc valid now))
                      (ground (arith, length-snoc valid now, under)) room.sized;
                few = placed (valid ++ now ∷ []) room.left room.place;
              };
              same_limits = (refl, refl);
            })
      ]

-- A request never panics, and keeps the limiter within its bounds: at most 10,000 clients are tracked,
-- each with at least one time and at most as many as the limit.
pub request-Judges :
    (ip : Text) (now : ℕ) (l : Limiter) → IsTracking l → Judges l (request ip now l)
unfolding request
request-Judges ip now l h =
    let j =
      judge-Judges (known_ip ip) now (count_request now l) (count_request-IsTracking now l h) in
    let kept = count_request-limits now l in
    record {
      verdict = j.verdict;
      after = j.after;
      works = j.works;
      tracking = j.tracking;
      same_limits = (j.same_limits.0 ∙ kept.0, j.same_limits.1 ∙ kept.1);
    }
