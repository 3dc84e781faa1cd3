-- ===== src/Service/Relay/Lifecycle.antt =====
-- internal/service/audit/relay.go: the calls of StartWorker and StopWorker and the goroutines of the
-- relay, interleaved in any order.
mod Kept
pub mod Ending
use disbursment_api.Base.{ℕ, ◌≡◌, Bool, true, false, some}
use disbursment_api.Service.Relay.Worker.{Worker, set_at, start_worker, stop_worker}

-- Where the goroutine of a start is: it turns in its loop, it has seen that its context is done and is
-- about to call `stopWorker`, or it has closed its `workerDone`.
pub data Phase : Type 0 where
  absent looping leaving ended : Phase

-- For each start: its goroutine, whether its context is done, and whether a `StopWorker` has gone on
-- to wait for its end. There is nothing to wait for at 0, the channel of no start.
pub record State : Type 0 where
  pub worker : Worker
  pub phase : ℕ → Phase
  pub cancelled : ℕ → Bool
  pub awaited : ℕ → Bool

pub data Step (s : State) : State → Type 0 where
  start :
      {w : Worker}
      → start_worker s.worker ≡ some w
      → Step s (record s { worker = w; phase = set_at w.current looping s.phase })
  cancel : (i : ℕ) → Step s (record s { cancelled = set_at i true s.cancelled })
  see_stop :
      (i : ℕ)
      → s.phase i ≡ looping
      → s.worker.stop_closed i ≡ true
      → Step s (record s { phase = set_at i ended s.phase })
  see_done :
      (i : ℕ)
      → s.phase i ≡ looping
      → s.cancelled i ≡ true
      → Step s (record s { phase = set_at i leaving s.phase })
  leave :
      (i : ℕ) {w : Worker}
      → s.phase i ≡ leaving
      → stop_worker s.worker ≡ some w
      → Step s (record s { worker = w; phase = set_at i ended s.phase })
  stop :
      {w : Worker}
      → stop_worker s.worker ≡ some w
      → Step s (record s { worker = w; awaited = set_at w.current true s.awaited })

-- A service that has been made and not started.
abbrev pub idle : State
idle = record {
  worker = record { running = false; current = 0; stop_closed = λ i. false };
  phase = λ i. absent;
  cancelled = λ i. false;
  awaited = λ i. false;
}

pub data Reach : State → Type 0 where
  made : Reach idle
  later : {s t : State} → Reach s → Step s t → Reach t
