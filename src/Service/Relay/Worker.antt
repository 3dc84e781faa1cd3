-- ===== src/Service/Relay/Worker.antt =====
-- internal/service/audit/relay.go: the worker that runs the relay, and its start and stop. Each start
-- makes a pair of channels and a goroutine, which are told apart by the number of the start.
pub mod Running
use disbursment_api.Base.{
  ℕ, suc, ◌+◌, ◌<◌, ◌≡◌, Bool, true, false, Option, none, some, List, [], ◌∷◌, ◌==◌, if◌then◌else◌,
}
use disbursment_api.Base.Int.{ℤ, pos, leb_ℤ, ltb_ℤ}
use disbursment_api.Repository.World.{Action, pure, ◌>>=◌, ◌>>◌, ignore_error}
use disbursment_api.Service.Relay.{Relay, Moment, process_batch, reconcile, cleanup}

-- The intervals of the three tickers, in nanoseconds.
pub record Intervals : Type 0 where
  pub process : ℤ
  pub reconcile : ℤ
  pub cleanup : ℤ

abbrev second : ℤ
second = pos 1000000000

abbrev positive_or : ℤ → ℤ → ℤ
positive_or fallback d = if leb_ℤ d (pos 0) then fallback else d

unfoldable pub intervals : ℤ → ℤ → Intervals
intervals interval recon_interval =
    let process = positive_or (pos 5000000000) interval in
    let short = ltb_ℤ process second in
    record {
      process = process;
      reconcile = if short then pos 50000000 else positive_or (pos 900000000000) recon_interval;
      cleanup = if short then pos 100000000 else pos 86400000000000;
    }

-- What the select of the loop takes up, with what the clock reads then.
pub data Tick : Type 0 where
  process_tick : (ℕ → Moment) → ℕ → Tick
  reconcile_tick cleanup_tick : ℕ → Tick

-- The results and errors of a turn are dropped.
abbrev pub take_up : Relay → ℤ → Tick → Action (Unit {0})
take_up relay batch_size (process_tick moments now) =
    ignore_error (process_batch relay moments now batch_size)
take_up relay batch_size (reconcile_tick now) = ignore_error (reconcile relay now)
take_up relay batch_size (cleanup_tick now) = ignore_error (cleanup relay now)

-- The turns of the loop until its context is done or it is told to stop.
unfoldable pub turns : Relay → ℤ → List Tick → Action (Unit {0})
turns relay batch_size [] = pure tt
turns relay batch_size (tick ∷ ticks) =
    take_up relay batch_size tick >> turns relay batch_size ticks

-- The goroutine: one turn of each kind at once, then the loop.
unfoldable pub work : Relay → ℤ → (ℕ → Moment) → ℕ → List Tick → Action (Unit {0})
unfolding turns
work relay batch_size moments now ticks =
    turns relay batch_size
      (process_tick moments now ∷ reconcile_tick now ∷ cleanup_tick now ∷ ticks)

-- The fields of the service that its mutex guards: whether a worker runs, and the number of the last
-- start, 0 before the first. A channel is known by its start: which stop channels are closed.
pub record Worker : Type 0 where
  pub running : Bool
  pub current : ℕ
  pub stop_closed : ℕ → Bool

unfoldable pub set_at {ℓ} : {A : Type ℓ} → ℕ → A → (ℕ → A) → ℕ → A
set_at i a f j = if j == i then a else f j

abbrev pub started : Worker → Worker
started s = record {
  running = true;
  current = suc s.current;
  stop_closed = set_at (suc s.current) false s.stop_closed;
}

-- `StartWorker`; `none` is its error.
unfoldable pub start_worker : Worker → Option Worker
start_worker s = if s.running then none else some (started s)

abbrev pub stopped : Worker → Worker
stopped s = record {
  running = false;
  current = s.current;
  stop_closed = set_at s.current true s.stop_closed;
}

-- Closing a channel that is closed would panic: `none`.
unfoldable pub close_stop : Worker → Option Worker
close_stop s = if s.stop_closed s.current then none else some (stopped s)

-- The part of `StopWorker` before it waits, and `stopWorker`.
unfoldable pub stop_worker : Worker → Option Worker
unfolding close_stop
stop_worker s = if s.running then close_stop s else some s
