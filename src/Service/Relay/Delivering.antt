-- ===== src/Service/Relay/Delivering.antt =====
-- internal/service/audit/relay.go: while the database works, a batch moves all of its events to the log.
use disbursment_api.Base.{
  ℕ, suc, ◌+◌, ◌≡◌, refl, ap, true, false, none, List, [], ◌∷◌, length, map, keep, All, arith, ◌==◌,
  if◌then◌else◌,
}
use disbursment_api.Base.Int.{ℤ, pos, leb_ℤ}
use disbursment_api.Failure.{ok}
use disbursment_api.Domain.Audit.{AuditEvent}
use disbursment_api.Repository.Tables.{Tables}
use disbursment_api.Repository.World.{World, Env}
use disbursment_api.Repository.World.Quiet.{
  Quiet, Yields, pure-Yields, bind-Yields, exec_pool-Yields, attempt-Yields, record_metric-Yields,
}
use disbursment_api.Repository.Outbox
use disbursment_api.Repository.Outbox.{
  event_invalid, is_log, is_pending_event, deliver_row, insert_log_statement,
  mark_delivered_statement, fetch_statement, chosen, chosen_ids, positive_or, default_lease,
  limit_or_default,
}
use disbursment_api.Service.Relay.{Relay, Moment, process_event, process_events, process_batch}
use disbursment_api.Service.Relay.Moving.{
  IsDeliverable, IsDelivered, logged, delivered, delivered-Moved, all_delivered,
  insert_log-returned, all_delivered-IsDelivered,
}

-- The events that a fetch at a time leases.
abbrev pub fetched_events : Relay → ℕ → ℤ → Tables → List AuditEvent
fetched_events relay now limit t =
    map (λ row. row.event)
      (keep (chosen (chosen_ids relay.locked now (limit_or_default limit) t.audit_outbox))
        t.audit_outbox)

abbrev leased : Relay → ℕ → ℤ → Tables → Tables
leased relay now limit t =
    (fetch_statement relay.locked (now + positive_or relay.lease default_lease) now
      (limit_or_default limit) t).1

abbrev pub size_of : ℤ → ℤ
size_of batch_size = if leb_ℤ batch_size (pos 0) then pos 50 else batch_size

nonzero_id : (event : AuditEvent) → event_invalid event ≡ false → (event.event_id == 0) ≡ false
unfolding event_invalid
nonzero_id event h = ground arith

module _ {env : Env} (quiet : Quiet env) (relay : Relay) where
  insert_projection-Yields :
      (event : AuditEvent) (c v : Tables)
      → IsDeliverable c.users event
      → Yields env c v (Outbox.insert_projection event) tt (logged event c) (logged event c)
  unfolding Outbox.insert_projection
  insert_projection-Yields event c v can = rw can.0 (
      exec_pool-Yields quiet (insert_log_statement event) c v tt (logged event c)
        (ap (λ r. (r, logged event c)) (insert_log-returned event c can.1)))

  mark_delivered-Yields :
      (event : AuditEvent) (now : ℕ) (c v : Tables)
      → event_invalid event ≡ false
      → Yields env c v
          (Outbox.mark_delivered event.event_id now now)
          tt
          ((mark_delivered_statement event.event_id (if now == 0 then now else now) c).1)
          ((mark_delivered_statement event.event_id (if now == 0 then now else now) c).1)
  unfolding Outbox.mark_delivered mark_delivered_statement
  mark_delivered-Yields event now c v valid =
      rw (nonzero_id event valid) (exec_pool-Yields quiet _ c v tt _ refl)

  process_event-Yields :
      (moment : Moment) (event : AuditEvent) (c v : Tables)
      → IsDeliverable c.users event
      → Yields env c v
          (process_event relay moment event)
          true
          (delivered moment.now event c)
          (delivered moment.now event c)
  unfolding process_event
  process_event-Yields moment event c v can =
      attempt-Yields _ (insert_projection-Yields event c v can) (
        attempt-Yields _ (mark_delivered-Yields event moment.now _ _ can.0)
          (bind-Yields _ (record_metric-Yields quiet relay.collector _ _ _) pure-Yields))

  module _ (moments : ℕ → Moment) (open_context : (n : ℕ) → (moments n).context_error ≡ none) where
    process_events-Yields :
        (turn n total : ℕ) (events : List AuditEvent) (c : Tables)
        → n + length events ≡ total
        → All (IsDeliverable c.users) events
        → Yields env c c
            (process_events relay moments turn n events)
            (total, none)
            (all_delivered moments turn events c)
            (all_delivered moments turn events c)
    unfolding process_events all_delivered
    process_events-Yields turn n total [] c all can =
        let e : total ≡ n = omega (arith, all) in rw e pure-Yields
    process_events-Yields turn n total (event ∷ events) c all can =
        let m = delivered-Moved (moments turn).now event c can.0.1 in
        let rest : All (IsDeliverable (delivered (moments turn).now event c).users) events =
          rw m.users can.1 in
        rw (open_context turn) (
          bind-Yields _ (process_event-Yields (moments turn) event c c can.0)
            (process_events-Yields (suc turn) (suc n) total events _ (omega (arith, all)) rest))

    process_batch-Yields :
        (now : ℕ) (batch_size : ℤ) (c v : Tables)
        → All (IsDeliverable c.users) (fetched_events relay now (size_of batch_size) c)
        → Yields env c v
            (process_batch relay moments now batch_size)
            (length (fetched_events relay now (size_of batch_size) c), none)
            (all_delivered moments 0
              (fetched_events relay now (size_of batch_size) c)
              (leased relay now (size_of batch_size) c))
            (all_delivered moments 0
              (fetched_events relay now (size_of batch_size) c)
              (leased relay now (size_of batch_size) c))
    unfolding process_batch Outbox.fetch_pending fetch_statement
    process_batch-Yields now batch_size c v can =
        attempt-Yields _ (exec_pool-Yields quiet _ c v _ _ refl) (
          bind-Yields _ (record_metric-Yields quiet relay.collector _ _ _) (
            process_events-Yields 0 0 _ (fetched_events relay now (size_of batch_size) c) _
              (omega arith) can))

-- While every exchange with the database works, no other session commits and the context goes on, a batch
-- delivers all that it fetches: it returns their number and no error, and each of its events is in the log
-- and no longer pending in the outbox, if the stores accept these events and their users are there.
pub process_batch-IsDelivered :
    {env : Env}
    → Quiet env
    → (relay : Relay) (moments : ℕ → Moment) → ((n : ℕ) → (moments n).context_error ≡ none)
    → (now : ℕ) (batch_size : ℤ) (w : World)
    → All
        (IsDeliverable w.committed.users)
        (fetched_events relay now (size_of batch_size) w.committed)
    → let (r, w') = process_batch relay moments now batch_size env w in
      let events = fetched_events relay now (size_of batch_size) w.committed in
      (r ≡ ok (length events, none)) × All (λ event. IsDelivered w'.committed event.event_id) events
unfolding fetch_statement
process_batch-IsDelivered {env} quiet relay moments open_context now batch_size w can =
    let done =
      (process_batch-Yields quiet relay moments open_context now batch_size w.committed w.view
          can).run
        w refl refl in
    (done.value, rw done.committed (all_delivered-IsDelivered moments 0 _ _ can))
