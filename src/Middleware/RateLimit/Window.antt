-- ===== src/Middleware/RateLimit/Window.antt =====
-- internal/httpapi/middleware/rate_limit.go: how many requests of one client the limiter lets through
-- within its window.
use disbursment_api.Base.{
  ℕ, ◌≤◌, ◌≡◌, refl, sym, ◌∙◌, ◌||◌, Bool, false, Option, none, some, List, [], ◌∷◌, ◌++◌, length,
  arith, Bool-cases, inl, inr, leb, if◌then◌else◌,
}
use disbursment_api.Base.Int.{ℤ, pos, negsuc, pos_part, leb_ℤ, int64, ◌*ℤ◌}
use disbursment_api.Base.Text.{Text, text_eq}
use disbursment_api.Middleware.RateLimit.{
  Client, Limiter, Verdict, allowed, too_many_requests, valid_times, times_of, set_times, make_room,
  count_request, admitted, judge, known_ip, request, new_limiter,
}
use disbursment_api.Middleware.RateLimit.Bounds.{IsTracking, request-Judges}
use disbursment_api.Middleware.RateLimit.Own.{
  Spares, IsSpared, Own, later-Own, count_request-Own, make_room-Made, placed-Own, refused-Own,
}

-- The times at which the client has been let through, with one more if this request is its own.
abbrev pub let_through : Text → Text → ℕ → Verdict → List ℕ → List ℕ
let_through ip client now too_many_requests times = times
let_through ip client now (allowed was_evicted) times =
    if text_eq (known_ip client) ip then times ++ now ∷ [] else times

-- A limiter since it was made, with the time of its last request and the times at which one client has
-- been let through. The clock does not go back, and no eviction takes the client from the map.
pub data Serves (limit window : ℤ) (ip : Text) : Limiter → ℕ → List ℕ → Type 0 where
  made : (l : Limiter) → new_limiter limit window ≡ some l → Serves limit window ip l 0 []
  turn :
      {l : Limiter} {before : ℕ} {times : List ℕ}
      → Serves limit window ip l before times
      → (client : Text) (now : ℕ) (verdict : Verdict) (l' : Limiter) → before ≤ now
      → request client now l ≡ some (verdict, l')
      → IsSpared ip verdict now l
      → Serves limit window ip l' now (let_through ip client now verdict times)

module _ (ip : Text) where
  -- What holds after the answer to a request.
  Answers : Text → ℕ → Limiter → List ℕ → Verdict × Limiter → Type 0
  Answers client now before times (too_many_requests, l) = Own ip l now times
  Answers client now before times (allowed was, l) =
      Spares ip was now before.window before.requests
      → Own ip l now (if text_eq client ip then times ++ now ∷ [] else times)

  judge-Answers :
      (client : Text) (now : ℕ) (l : Limiter) (times : List ℕ) (answer : Verdict × Limiter)
      → Own ip l now times
      → judge client now l ≡ some answer
      → Answers client now l times answer
  unfolding judge Answers
  judge-Answers client now l times answer own e =
      let valid = valid_times now l.window (times_of client l.requests) in
      elim (Bool-cases (leb l.limit (length valid))) [
        | inl full ↦
            let refusal : answer
                ≡ (too_many_requests, record l { requests = set_times client valid l.requests }) =
              cc (e, full) in
            rw refusal (refused-Own ip client now l times own)
        | inr under ↦
            go (make_room now l.window (times_of client l.requests) l.requests) refl under
              (cc (e, under))
      ]
    where
      go :
          (o : Option (List Client × Bool))
          → make_room now l.window (times_of client l.requests) l.requests ≡ o
          → leb l.limit (length (valid_times now l.window (times_of client l.requests))) ≡ false
          → admitted client (valid_times now l.window (times_of client l.requests) ++ now ∷ []) l o
            ≡ some answer
          → Answers client now l times answer
      go none given under e' = absurd (cc e')
      go (some (left, was)) given under e' =
          let admission : answer ≡ (
            allowed was,
            record l {
              requests =
                  set_times client
                    (valid_times now l.window (times_of client l.requests) ++ now ∷ []) left;
            },
          ) =
            cc e' in
          let room =
            make_room-Made ip now l.window (times_of client l.requests) l.requests left was
              own.single given in
          rw admission (placed-Own ip client now l times left was own room under)

  Answers-Own :
      (client : Text) (now : ℕ) (before : Limiter) (times : List ℕ) (verdict : Verdict)
      (l : Limiter)
      → Answers (known_ip client) now (count_request now before) times (verdict, l)
      → IsSpared ip verdict now before
      → Own ip l now (let_through ip client now verdict times)
  unfolding Answers
  Answers-Own client now before times too_many_requests l h spared = h
  Answers-Own client now before times (allowed was) l h spared = h spared

-- The limiter that is made, and each later one, has the limit and the window that it is made with.
record IsMade (limit window : ℤ) (l : Limiter) : Type 0 where
  tracking : IsTracking l
  same_limit : l.limit ≡ pos_part limit
  same_window : l.window ≡ pos_part window

positive_limit : (limit : ℤ) → leb_ℤ limit (pos 0) ≡ false → 1 ≤ pos_part limit
positive_limit (pos n) h = ground arith
positive_limit (negsuc n) h = ground arith

new_limiter-IsMade :
    (limit window : ℤ) (l : Limiter)
    → new_limiter limit window ≡ some l
    → IsMade limit window l × (l.requests ≡ [])
unfolding new_limiter
new_limiter-IsMade limit window l e = elim (Bool-cases (leb_ℤ limit (pos 0))) [
  | inl no_limit ↦ absurd (cc (e, no_limit))
  | inr limited ↦
      elim (Bool-cases (leb_ℤ window (pos 0) || leb_ℤ (int64 (pos 2 *ℤ window)) (pos 0))) [
        | inl no_window ↦ absurd (cc (e, limited, no_window))
        | inr lasting ↦
            let fresh : l ≡ record {
              requests = [];
              limit = pos_part limit;
              window = pos_part window;
              cleanup_after = 0;
            } =
              cc (e, limited, lasting) in
            rw fresh (
              record {
                tracking = record {
                  limited = positive_limit limit limited;
                  sized = tt;
                  few = ground arith;
                };
                same_limit = refl;
                same_window = refl;
              },
              refl,
            )
      ]
]

request-IsMade :
    (limit window : ℤ) (client : Text) (now : ℕ) (l : Limiter) (verdict : Verdict) (l' : Limiter)
    → IsMade limit window l
    → request client now l ≡ some (verdict, l')
    → IsMade limit window l'
request-IsMade limit window client now l verdict l' h e =
    let j = request-Judges client now l h.tracking in
    let same : l' ≡ j.after = cc (e, j.works) in
    rw same (record {
      tracking = j.tracking;
      same_limit = j.same_limits.0 ∙ h.same_limit;
      same_window = j.same_limits.1 ∙ h.same_window;
    })

Serves-Own :
    {limit window : ℤ} {ip : Text} {l : Limiter} {now : ℕ} {times : List ℕ}
    → Serves limit window ip l now times
    → IsMade limit window l × Own ip l now times
unfolding request times_of
Serves-Own {limit} {window} {ip} (made l e) =
    let (fresh, empty) = new_limiter-IsMade limit window l e in
    (
      fresh,
      record { single = rw empty (ground arith); same = rw empty refl; within = ground arith },
    )
Serves-Own {limit} {window} {ip}
      (turn {l} {before} {times} s client now verdict l' later e spared) =
    let (since, own) = Serves-Own s in
    let counted = count_request-Own ip now l times (later-Own ip l before now times later own) in
    (
      request-IsMade limit window client now l verdict l' since e,
      Answers-Own ip client now l times verdict l'
          (judge-Answers ip (known_ip client) now (count_request now l) times (verdict, l') counted
            e)
          spared,
    )

-- A limiter lets at most as many requests of one client through within its window as its limit says,
-- whatever requests of whatever clients it is asked about since it was made, if the clock does not go back
-- and no eviction takes that client from the map.
pub Serves-within_limit :
    {limit window : ℤ} {ip : Text} {l : Limiter} {now : ℕ} {times : List ℕ}
    → Serves limit window ip l now times
    → length (valid_times now (pos_part window) times) ≤ pos_part limit
Serves-within_limit s =
    let (since, own) = Serves-Own s in rw (sym since.same_limit, sym since.same_window) own.within
