-- ===== src/Tests/RelayTests.antt =====
-- Concrete runs of the relay's worker: internal/service/audit/relay.go.
use disbursment_api.Base.{
  ℕ, ◌<◌, ◌≤◌, ◌≡◌, refl, true, false, none, some, [], ◌∷◌, ◌⊎◌, length, All, arith,
}
use disbursment_api.Base.Int.{pos}
use disbursment_api.Service.Relay.Traced.{Traced}
use disbursment_api.Service.Relay.Worker.{
  Worker, process_tick, cleanup_tick, work, set_at, started, start_worker, stopped, close_stop,
  stop_worker,
}
use disbursment_api.Service.Relay.Worker.Running.{work-Traced}
use disbursment_api.Service.Relay.Lifecycle.{
  looping, leaving, ended, State, Step, start, cancel, see_done, leave, stop, idle, Reach, made,
  later,
}
use disbursment_api.Service.Relay.Lifecycle.Ending.{Reach-stop_worker, awaited-Ends}
use disbursment_api.Tests.Samples.{
  sample_env, sample_relay, sample_moment, sample_tables, sample_world, sample_event,
}
use disbursment_api.Failure.{ok}
use disbursment_api.Repository.Outbox.{event_invalid, is_in, available, order, place}
use disbursment_api.Service.Relay.{process_batch}
use disbursment_api.Service.Relay.Moving.{IsDeliverable, IsDelivered}
use disbursment_api.Service.Relay.Delivering.{fetched_events, size_of, process_batch-IsDelivered}
use disbursment_api.Tests.OnceTests.{quiet_env, quiet_env-Quiet}

sample_tables-Traced : Traced 21 sample_tables
sample_tables-Traced = record { delivered_logged = (refl, tt); traced = refl }

work-Traced_example :
    Traced 21
      (work sample_relay
        (pos 10)
        (λ turn. sample_moment)
        300
        (process_tick (λ turn. sample_moment) 900 ∷ cleanup_tick 5000 ∷ [])
        sample_env
        sample_world).1.committed
work-Traced_example =
    work-Traced sample_env 21 sample_relay (pos 10) (λ turn. sample_moment) 300
      (process_tick (λ turn. sample_moment) 900 ∷ cleanup_tick 5000 ∷ []) sample_world
      (record { traces = λ n t h. h; logs = λ event_id n t h. h }) sample_tables-Traced

-- A worker whose context is done, and a StopWorker that comes before its `stopWorker`.
abbrev stopping : State
stopping = record {
  worker = stopped (started idle.worker);
  phase = set_at 1 leaving (set_at 1 looping idle.phase);
  cancelled = set_at 1 true idle.cancelled;
  awaited = set_at 1 true idle.awaited;
}

stopping-Reach : Reach stopping
unfolding start_worker stop_worker close_stop set_at
stopping-Reach =
    later (later (later (later made (start refl)) (cancel 1)) (see_done 1 refl refl)) (stop refl)

Reach-stop_worker_example :
    (w : Worker) × (stop_worker stopping.worker ≡ some w)
    × (w.running ≡ false)
    × ((i : ℕ) → 0 < i → i ≤ w.current → w.stop_closed i ≡ true)
Reach-stop_worker_example = Reach-stop_worker stopping-Reach

awaited-Ends_example :
    (stopping.phase 1 ≡ ended) ⊎ ((t : State) × Step stopping t × (t.phase 1 ≡ ended))
unfolding set_at
awaited-Ends_example = awaited-Ends 1 stopping-Reach (omega arith) refl

-- A start during that wait: the goroutine of the first start then stops the second one, whose context
-- is not done and for which nobody has called StopWorker.
second_start_stopped :
    (s : State) × Reach s
    × (s.worker.current ≡ 2)
    × (s.worker.running ≡ false)
    × (s.worker.stop_closed 2 ≡ true)
    × (s.phase 2 ≡ looping)
    × (s.cancelled 2 ≡ false)
    × (s.awaited 2 ≡ false)
unfolding start_worker stop_worker close_stop set_at
second_start_stopped = (
  _,
  later (later stopping-Reach (start refl)) (leave 1 refl refl),
  refl,
  refl,
  refl,
  refl,
  refl,
  refl,
)

-- The one event of the outbox is fetched, and its user is there.
fetched_sample : fetched_events sample_relay 300 (size_of (pos 0)) sample_tables ≡ sample_event ∷ []
unfolding is_in available order place
fetched_sample = refl

sample_event-IsDeliverable :
    All
      (IsDeliverable sample_tables.users)
      (fetched_events sample_relay 300 (size_of (pos 0)) sample_tables)
unfolding event_invalid
sample_event-IsDeliverable = rw fetched_sample ((refl, refl), tt)

process_batch-IsDelivered_example :
    let (r, w') =
      process_batch sample_relay (λ turn. sample_moment) 300 (pos 0) quiet_env sample_world in
    let events = fetched_events sample_relay 300 (size_of (pos 0)) sample_tables in
    (r ≡ ok (length events, none)) × All (λ event. IsDelivered w'.committed event.event_id) events
process_batch-IsDelivered_example =
    process_batch-IsDelivered quiet_env-Quiet sample_relay (λ turn. sample_moment) (λ n. refl) 300
      (pos 0) sample_world sample_event-IsDeliverable
