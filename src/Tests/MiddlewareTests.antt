-- ===== src/Tests/MiddlewareTests.antt =====
-- Theorems on internal/httpapi/middleware at concrete inputs.

use disbursment_api.Base.Text.{runes, text_eq}
use disbursment_api.Middleware.RateLimit.Bounds.{IsTracking, Judges, request-Judges}
use disbursment_api.Base.{length, ◌≤◌, ℕ, List, [], ◌∷◌, refl, false, arith}
use disbursment_api.Base.Int.{pos, int64, ◌*ℤ◌}
use disbursment_api.Middleware.RateLimit.Window.{Serves, made, turn, Serves-within_limit}
use disbursment_api.Middleware.RateLimit.{
  Client, Limiter, allowed, too_many_requests, valid_times, new_limiter, request, judge, times_of,
  set_times, make_room,
}

-- Two tracked clients, of which one has reached the limit.
abbrev busy_limiter : Limiter
busy_limiter = record {
  requests =
      record { ip = runes "203.0.113.10"; times = 100 ∷ 110 ∷ [] }
      ∷ record { ip = runes "192.0.2.44"; times = 40 ∷ [] }
      ∷ [];
  limit = 2;
  window = 60;
  cleanup_after = 255;
}

busy_limiter-IsTracking : IsTracking busy_limiter
busy_limiter-IsTracking = record {
  limited = ground arith;
  sized = ((ground arith, ground arith), ((ground arith, ground arith), tt));
  few = ground arith;
}

request-Judges_example : Judges busy_limiter (request (runes "203.0.113.10") 120 busy_limiter)
request-Judges_example =
    request-Judges (runes "203.0.113.10") 120 busy_limiter busy_limiter-IsTracking

-- Two requests at once and one more, of a client that may send two in a minute.
abbrev minute_limiter : List Client → ℕ → Limiter
minute_limiter requests cleanup_after = record {
  requests = requests;
  limit = 2;
  window = 60000000000;
  cleanup_after = cleanup_after;
}

abbrev seen : List ℕ → List Client
seen times = record { ip = runes "203.0.113.10"; times = times } ∷ []

minute_limiter-Serves :
    Serves
      (pos 2)
      (pos 60000000000)
      (runes "203.0.113.10")
      (minute_limiter (seen (100 ∷ 110 ∷ [])) 3)
      120
      (100 ∷ 110 ∷ [])
unfolding new_limiter request judge times_of set_times make_room text_eq int64 ◌*ℤ◌
minute_limiter-Serves =
    turn
      (turn
        (turn (made (minute_limiter [] 0) refl) (runes "203.0.113.10") 100 (allowed false)
          (minute_limiter (seen (100 ∷ [])) 1) (ground arith) refl (λ e. absurd (cc e)))
        (runes "203.0.113.10") 110 (allowed false) (minute_limiter (seen (100 ∷ 110 ∷ [])) 2)
        (ground arith) refl (λ e. absurd (cc e)))
      (runes "203.0.113.10") 120 too_many_requests (minute_limiter (seen (100 ∷ 110 ∷ [])) 3)
      (ground arith) refl tt

Serves-within_limit_example : length (valid_times 120 60000000000 (100 ∷ 110 ∷ [])) ≤ 2
Serves-within_limit_example = Serves-within_limit minute_limiter-Serves
