-- ===== src/Metrics/Counters.antt =====
-- internal/observability/metrics/collector.go: incMapCounter, called by any number of requests at once.
pub mod Turning
pub mod Lossless
use disbursment_api.Base.{
  ℕ, suc, ◌+◌, ◌%◌, Bool, Option, none, some, List, [], ◌∷◌, ◌++◌, ◌==◌, if◌then◌else◌,
}
use disbursment_api.Base.Int.{full_range}
use disbursment_api.Base.Text.{Text, text_eq}

-- A map from keys to pointers, the numbers they point to, and the next pointer that `&val` makes.
pub record Counters : Type 0 where
  pub slots : Text → Option ℕ
  pub cells : ℕ → ℕ
  pub next : ℕ

-- Where a call is: before it looks the key up under the read lock, before it looks the key up under the
-- lock since it found none, and before it adds to the number that it points to.
pub data Call : Type 0 where
  looking missing : Text → Call
  adding : Text → ℕ → Call

abbrev pub key_of : Call → Text
key_of (looking k) = k
key_of (missing k) = k
key_of (adding k p) = k

-- The call found the key, or goes on to take the lock.
abbrev pub found : Text → Option ℕ → Call
found k none = missing k
found k (some p) = adding k p

unfoldable pub allocate : Text → Counters → Counters
allocate k m = record {
  slots = λ j. if text_eq j k then some m.next else m.slots j;
  cells = λ p. if p == m.next then 0 else m.cells p;
  next = suc m.next;
}

-- Under the lock: the key may have been put there in the meantime.
abbrev pub locked : Text → Counters → Option ℕ → Counters × Call
locked k m none = (allocate k m, adding k m.next)
locked k m (some p) = (m, adding k p)

-- `atomic.AddUint64(ptr, 1)`.
unfoldable pub add_one : ℕ → Counters → Counters
add_one p m = record m { cells = λ q. if q == p then (m.cells p + 1) % full_range else m.cells q }

-- One turn of a call: what it leaves, and itself unless it has returned.
unfoldable pub turn : Call → Counters → Counters × List Call
turn (looking k) m = (m, found k (m.slots k) ∷ [])
turn (missing k) m = let (m', c) = locked k m (m.slots k) in (m', c ∷ [])
turn (adding k p) m = (add_one p m, [])

abbrev pub empty : Counters
empty = record { slots = λ k. none; cells = λ p. 0; next = 0 }

-- The counters, the calls under way, and the keys of all calls so far, in any interleaving.
pub data Reach : Counters → List Call → List Text → Type 0 where
  made : Reach empty [] []
  call :
      {m : Counters} {calls : List Call} {keys : List Text} (k : Text)
      → Reach m calls keys
      → Reach m (looking k ∷ calls) (k ∷ keys)
  move :
      {m : Counters} {keys : List Text} (before : List Call) (c : Call) (after : List Call)
      → Reach m (before ++ c ∷ after) keys
      → Reach (turn c m).0 (before ++ ((turn c m).1 ++ after)) keys

-- What `copyMap` reads: no entry stands for 0.
abbrev pub cell : Counters → Option ℕ → ℕ
cell m none = 0
cell m (some p) = m.cells p

abbrev pub value : Counters → Text → ℕ
value m k = cell m (m.slots k)
