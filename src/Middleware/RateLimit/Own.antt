-- ===== src/Middleware/RateLimit/Own.antt =====
-- internal/httpapi/middleware/rate_limit.go: the map of the limiter has what counts of the times at which
-- one client has been let through, through all that a request does.
use disbursment_api.Base.{
  ℕ, ◌+◌, ◌≤◌, ◌≡◌, refl, sym, ap, ◌∙◌, ◌&&◌, ◌==◌, Bool, true, false, Option, none, some, List, [],
  ◌∷◌, ◌++◌, length, arith, Bool-cases, inl, inr, leb, if◌then◌else◌,
}
use disbursment_api.Base.Text.{Text, text_eq, text_eq_sound}
use disbursment_api.Middleware.RateLimit.{
  Client, Limiter, Verdict, allowed, too_many_requests, max_tracked_clients, in_window, valid_times,
  cleanup_expired, times_of, set_times, delete_client, deleted_from, evict_least_recent, evicted,
  least_recent, make_room, count_request,
}
use disbursment_api.Middleware.RateLimit.Bounds.{length-snoc}
use disbursment_api.Middleware.RateLimit.Room.{length-keep}
use disbursment_api.Middleware.RateLimit.Tracking.{
  valid_times-later, valid_times-snoc, IsSingle, times_of-set_times, set_times-IsSingle,
  times_of-set_times_other, count-set_times_other, count-cleanup_expired, times_of-cleanup_expired,
  count-delete_client, IsOther, times_of-delete_client,
}

-- The client that an eviction at this time removes from a map: the least recent one after the cleanup.
abbrev pub victim : ℕ → ℕ → List Client → Option (Option (Text × ℕ))
victim now window cs = least_recent none (cleanup_expired now window cs)

-- That such an eviction, if there is one, takes another client than the given one from the map.
abbrev pub Spares : Text → Bool → ℕ → ℕ → List Client → Type 0
Spares ip was_evicted now window cs =
    was_evicted ≡ true
    → (found : Option (Text × ℕ)) → victim now window cs ≡ some found
    → IsOther ip found

-- A request before which the limiter is `l` has not evicted the client.
abbrev pub IsSpared : Text → Verdict → ℕ → Limiter → Type 0
IsSpared ip too_many_requests now l = Unit
IsSpared ip (allowed was_evicted) now l =
    let counted = count_request now l in Spares ip was_evicted now counted.window counted.requests

module _ (ip : Text) where
  -- What the map has for the client is what counts of the times at which it has been let through.
  pub record Own (l : Limiter) (now : ℕ) (times : List ℕ) : Type 0 where
    pub single : IsSingle ip l.requests
    pub same : valid_times now l.window (times_of ip l.requests) ≡ valid_times now l.window times
    pub within : length (valid_times now l.window times) ≤ l.limit

  pub later-Own :
      (l : Limiter) (before now : ℕ) (times : List ℕ)
      → before ≤ now
      → Own l before times
      → Own l now times
  later-Own l before now times h own =
      let of_map = valid_times-later before now l.window (times_of ip l.requests) h in
      let of_times = valid_times-later before now l.window times h in
      record {
        single = own.single;
        same = sym of_map ∙ (ap (valid_times now l.window) own.same ∙ of_times);
        within =
            let fewer = length-keep (in_window now l.window) (valid_times before l.window times) in
            omega (arith, ap length of_times, fewer, own.within);
      }

  -- Another map that says the same of the client.
  pub record Carries (now window : ℕ) (cs left : List Client) : Type 0 where
    pub single : IsSingle ip left
    pub same : valid_times now window (times_of ip left) ≡ valid_times now window (times_of ip cs)

  cleanup_expired-Carries :
      (now window : ℕ) (cs : List Client)
      → IsSingle ip cs
      → Carries now window cs (cleanup_expired now window cs)
  cleanup_expired-Carries now window cs single = record {
    single = ground (arith, single, count-cleanup_expired ip now window cs);
    same =
        ap (valid_times now window) (times_of-cleanup_expired ip now window cs single)
        ∙ valid_times-later now now window (times_of ip cs) (ground arith);
  }

  carried-Own :
      (l : Limiter) (left : List Client) (after now : ℕ) (times : List ℕ)
      → Carries now l.window l.requests left
      → Own l now times
      → Own (record l { requests = left; cleanup_after = after }) now times
  carried-Own l left after now times c own = record {
    single = c.single;
    same = c.same ∙ own.same;
    within = own.within;
  }

  pub count_request-Own :
      (now : ℕ) (l : Limiter) (times : List ℕ)
      → Own l now times
      → Own (count_request now l) now times
  count_request-Own now l times own = elim (Bool-cases (leb 256 (l.cleanup_after + 1))) [
    | inl due ↦ rw due (
        carried-Own l _ 0 now times (cleanup_expired-Carries now l.window l.requests own.single)
          own)
    | inr early ↦ rw early (record { single = own.single; same = own.same; within = own.within })
  ]

  evicted-cases :
      (cs left : List Client) (was : Bool) (o : Option (Option (Text × ℕ)))
      → evicted (deleted_from cs o) ≡ some (left, was)
      → (was ≡ true)
        × ((found : Option (Text × ℕ)) × ((o ≡ some found) × (left ≡ delete_client found cs)))
  evicted-cases cs left was none e = absurd (cc e)
  evicted-cases cs left was (some found) e = (cc e, (found, (refl, cc e)))

  -- The room that is made for a client says the same of this one, unless this one is evicted.
  pub record Made (now window : ℕ) (cs left : List Client) (was : Bool) : Type 0 where
    pub single : IsSingle ip left
    pub carries :
        Spares ip was now window cs
        → valid_times now window (times_of ip left) ≡ valid_times now window (times_of ip cs)

  pub make_room-Made :
      (now window : ℕ) (times : List ℕ) (cs left : List Client) (was : Bool)
      → IsSingle ip cs
      → make_room now window times cs ≡ some (left, was)
      → Made now window cs left was
  unfolding make_room evict_least_recent
  make_room-Made now window times cs left was single e =
      let cleaned = cleanup_expired now window cs in
      let c = cleanup_expired-Carries now window cs single in
      elim (Bool-cases (length times == 0 && leb max_tracked_clients (length cs))) [
        | inr free ↦
            let same : left ≡ cs = cc (e, free) in
            record { single = rw same single; carries = λ spared. rw same refl }
        | inl full ↦ elim (Bool-cases (leb max_tracked_clients (length cleaned))) [
          | inr cleared ↦
              let same : left ≡ cleaned = cc (e, full, cleared) in
              record { single = rw same c.single; carries = λ spared. rw same c.same }
          | inl crowded ↦
              let (was_true, deletion) =
                evicted-cases cleaned left was (least_recent none cleaned)
                  (cc (e, full, crowded)) in
              let (found, (chosen, same)) = deletion in
              record {
                single = rw same (ground (arith, c.single, count-delete_client ip found cleaned));
                carries = λ spared.
                    rw
                      (same, times_of-delete_client ip found cleaned (spared was_true found chosen))
                      c.same;
              }
        ]
      ]

  -- The map after the request, whose answer is known.
  pub placed-Own :
      (client : Text) (now : ℕ) (l : Limiter) (times : List ℕ) (left : List Client) (was : Bool)
      → Own l now times
      → Made now l.window l.requests left was
      → leb l.limit (length (valid_times now l.window (times_of client l.requests))) ≡ false
      → Spares ip was now l.window l.requests
      → Own
          (record l {
            requests =
                set_times client
                  (valid_times now l.window (times_of client l.requests) ++ now ∷ [])
                  left;
          })
          now
          (if text_eq client ip then times ++ now ∷ [] else times)
  placed-Own client now l times left was own room under spared =
      let fresh = valid_times now l.window (times_of client l.requests) ++ now ∷ [] in
      elim (Bool-cases (text_eq client ip)) [
        | inl mine ↦
            let e : client ≡ ip = text_eq_sound client ip mine in
            let counted =
              valid_times-later now now l.window (times_of ip l.requests) (ground arith)
              ∙ own.same in
            let fits : leb l.limit (length (valid_times now l.window (times_of ip l.requests)))
                ≡ false =
              rw (sym e) under in
            rw (mine, e)
              (record {
                single = set_times-IsSingle ip _ left room.single;
                same =
                    ap (valid_times now l.window) (times_of-set_times ip _ left)
                    ∙ (valid_times-snoc now l.window
                          (valid_times now l.window (times_of ip l.requests))
                        ∙ (ap (λ x. x ++ now ∷ []) counted
                            ∙ sym (valid_times-snoc now l.window times)));
                within =
                    let one_more = length-snoc (valid_times now l.window times) now in
                    let as_many = ap length own.same in
                    rw (valid_times-snoc now l.window times)
                      (ground (arith, one_more, as_many, fits));
              })
        | inr differs ↦ rw differs (record {
          single = rw (count-set_times_other ip client differs fresh left) room.single;
          same =
              ap (valid_times now l.window) (times_of-set_times_other ip client differs fresh left)
              ∙ (room.carries spared ∙ own.same);
          within = own.within;
        })
      ]

  -- A request that is refused.
  pub refused-Own :
      (client : Text) (now : ℕ) (l : Limiter) (times : List ℕ)
      → Own l now times
      → Own
          (record l {
            requests =
                set_times client (valid_times now l.window (times_of client l.requests)) l.requests;
          })
          now
          times
  refused-Own client now l times own =
      let valid = valid_times now l.window (times_of client l.requests) in
      elim (Bool-cases (text_eq client ip)) [
        | inl mine ↦
            let e : client ≡ ip = text_eq_sound client ip mine in
            rw e (record {
              single = set_times-IsSingle ip _ l.requests own.single;
              same =
                  ap (valid_times now l.window) (times_of-set_times ip _ l.requests)
                  ∙ (valid_times-later now now l.window (times_of ip l.requests) (ground arith)
                      ∙ own.same);
              within = own.within;
            })
        | inr differs ↦ record {
          single = rw (count-set_times_other ip client differs valid l.requests) own.single;
          same =
              ap (valid_times now l.window)
                (times_of-set_times_other ip client differs valid l.requests)
              ∙ own.same;
          within = own.within;
        }
      ]
