-- ===== src/Service/Relay/Worker/Running.antt =====
-- internal/service/audit/relay.go: whatever the worker takes up, no event is lost.
use disbursment_api.Base.{ℕ, List, [], ◌∷◌}
use disbursment_api.Base.Int.{ℤ}
use disbursment_api.Repository.World.{Env, World}
use disbursment_api.Repository.World.Rules.{bind-Triple}
use disbursment_api.Repository.World.Handlers.{record_metric-Triple, ignore_error-Triple}
use disbursment_api.Repository.World.Keeps.{
  Calm, KeepsOutside, pure-KeepsOutside, exec_pool-KeepsOutside, Ends-committed,
}
use disbursment_api.Repository.Outbox
use disbursment_api.Repository.Outbox.{reconcile_statement}
use disbursment_api.Service.Relay.{Relay, Moment, reconcile}
use disbursment_api.Service.Relay.Batches.{
  KeepsTracked, process_batch-KeepsOutside, cleanup-KeepsOutside,
}
use disbursment_api.Service.Relay.Logged.{HasLog, Tracked}
use disbursment_api.Service.Relay.Traced.{Traced, tracked_event}
use disbursment_api.Service.Relay.Worker.{
  Tick, process_tick, reconcile_tick, cleanup_tick, take_up, turns, work,
}

module _ (env : Env) (I : Tracked) (others : KeepsTracked env I) where
  reconcile-KeepsOutside :
      (relay : Relay) (now : ℕ) → KeepsOutside env I.Holds (reconcile relay now)
  unfolding reconcile Outbox.reconcile_pending reconcile_statement
  reconcile-KeepsOutside relay now =
      bind-Triple (exec_pool-KeepsOutside env I.Holds others.holds _ (λ t h. h)) (λ counts.
        bind-Triple (record_metric-Triple relay.collector _)
          (λ u. pure-KeepsOutside env I.Holds counts))

  take_up-KeepsOutside :
      (relay : Relay) (batch_size : ℤ) (tick : Tick)
      → KeepsOutside env I.Holds (take_up relay batch_size tick)
  take_up-KeepsOutside relay batch_size (process_tick moments now) =
      ignore_error-Triple _ (process_batch-KeepsOutside env I others relay moments now batch_size)
        (λ a c v p. p)
  take_up-KeepsOutside relay batch_size (reconcile_tick now) =
      ignore_error-Triple _ (reconcile-KeepsOutside relay now) (λ a c v p. p)
  take_up-KeepsOutside relay batch_size (cleanup_tick now) =
      ignore_error-Triple _ (cleanup-KeepsOutside env I others relay now) (λ a c v p. p)

  turns-KeepsOutside :
      (relay : Relay) (batch_size : ℤ) (ticks : List Tick)
      → KeepsOutside env I.Holds (turns relay batch_size ticks)
  unfolding turns
  turns-KeepsOutside relay batch_size [] = pure-KeepsOutside env I.Holds tt
  turns-KeepsOutside relay batch_size (tick ∷ ticks) =
      bind-Triple (take_up-KeepsOutside relay batch_size tick)
        (λ u. turns-KeepsOutside relay batch_size ticks)

  pub work-Kept :
      (relay : Relay) (batch_size : ℤ) (moments : ℕ → Moment) (now : ℕ) (ticks : List Tick)
      (w : World)
      → I.Holds w.committed
      → I.Holds (work relay batch_size moments now ticks env w).1.committed
  unfolding work
  work-Kept relay batch_size moments now ticks w h =
      let all : List Tick =
        process_tick moments now ∷ reconcile_tick now ∷ cleanup_tick now ∷ ticks in
      Ends-committed {A = Unit {0}} I.Holds (turns relay batch_size all env w)
        ((turns-KeepsOutside relay batch_size all).run w h)

-- Other sessions keep the traces, and delete nothing from the log.
pub record KeepsTraces (env : Env) (id : ℕ) : Type 0 where
  pub traces : Calm env (Traced id)
  pub logs : (event_id : ℕ) → Calm env (HasLog event_id)

-- A worker of the relay keeps the trace of every event, whatever ticks it takes up in whatever order,
-- whatever exchanges fail, and wherever it ends: if every event that is marked as delivered is in the
-- log, and an event is in the outbox or in the log, this holds after its run too, if the other sessions
-- keep it and delete nothing from the log. Batches, counts and cleanups are such ticks.
pub work-Traced :
    (env : Env) (id : ℕ) (relay : Relay) (batch_size : ℤ) (moments : ℕ → Moment) (now : ℕ)
    (ticks : List Tick) (w : World)
    → KeepsTraces env id
    → Traced id w.committed
    → Traced id (work relay batch_size moments now ticks env w).1.committed
work-Traced env id relay batch_size moments now ticks w others h =
    work-Kept env (tracked_event id)
      (record {
        holds = others.traces;
        logs = λ event_id n t p. (others.traces n t p.0, others.logs event_id n t p.1);
      })
      relay batch_size moments now ticks w h
