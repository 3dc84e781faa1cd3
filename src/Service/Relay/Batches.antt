-- ===== src/Service/Relay/Batches.antt =====
-- internal/service/audit/relay.go: no event is lost on its way from the outbox to the log, whatever the
-- exchanges with the server do.
use disbursment_api.Base.{
  ℕ, suc, true, false, Option, none, some, List, [], ◌∷◌, All, keep, Bool-cases, inl, inr, ◌==◌,
}
use disbursment_api.Base.Parts.{All-keep, All-mapped}
use disbursment_api.Base.Int.{ℤ}
use disbursment_api.Failure.{Cause, Failure, ok}
use disbursment_api.Domain.Audit.{AuditEvent}
use disbursment_api.Repository.Tables.{Tables}
use disbursment_api.Repository.World.{Sql, returned, failed, Env, Action}
use disbursment_api.Repository.World.Rules.{Triple, Answered, bind-Triple, exec_pool-Triple}
use disbursment_api.Repository.World.Handlers.{
  record_metric-Triple, ignore_error-Triple, attempt-Triple,
}
use disbursment_api.Repository.World.Keeps.{
  Outside, KeepsOutside, Calm, pure-KeepsOutside, raise-KeepsOutside, if-KeepsOutside,
  exec_pool-KeepsOutside,
}
use disbursment_api.Repository.Outbox
use disbursment_api.Repository.Outbox.{
  event_invalid, insert_log_statement, mark_delivered_statement, fetch_statement,
}
use disbursment_api.Service.Relay.{
  Relay, Moment, process_event, counted, unless_done, process_events, fetched, process_batch,
  cleanup,
}
use disbursment_api.Service.Relay.Logged.{HasLog, Logs, insert_log-Logs, Tracked}

-- Other sessions keep the invariant, and with it each entry of the log.
pub record KeepsTracked (env : Env) (I : Tracked) : Type 0 where
  pub holds : Calm env I.Holds
  pub logs : (event_id : ℕ) → Calm env (λ t. I.Holds t × HasLog event_id t)

module _ (env : Env) (I : Tracked) (others : KeepsTracked env I) where
  Logs-answer :
      (event_id : ℕ) (r : Sql (Unit {0})) (c : Tables)
      → Logs I.Holds event_id r c
      → Answered I.Holds (λ u c v. I.Holds c × HasLog event_id c) r c c
  Logs-answer event_id (returned u) c h = h
  Logs-answer event_id (failed e) c h = h

  Logs-Holds :
      (event_id : ℕ) (r : Sql (Unit {0})) (c : Tables) → Logs I.Holds event_id r c → I.Holds c
  Logs-Holds event_id (returned u) c h = h.0
  Logs-Holds event_id (failed e) c h = h

  logged :
      (event : AuditEvent) (t : Tables)
      → I.Known event
      → I.Holds t
      → let (r, t') = insert_log_statement event t in Logs I.Holds event.event_id r t'
  logged event t known h = insert_log-Logs I.Holds event t h (I.insert_log event t known h)

  insert_projection-Triple :
      (event : AuditEvent)
      → I.Known event
      → Triple env I.Holds
          (Outside I.Holds)
          (Outbox.insert_projection event)
          (λ u c v. I.Holds c × HasLog event.event_id c)
  unfolding Outbox.insert_projection
  insert_projection-Triple event known = elim (Bool-cases (event_invalid event)) [
    | inl invalid ↦ rw invalid (record { run = λ w p. p })
    | inr valid ↦ rw valid (
        exec_pool-Triple (insert_log_statement event) I.Holds (λ n c v p. others.holds n c p)
          (λ t s. s) (λ t s. Logs-Holds event.event_id _ _ (logged event t known s))
          (λ t s. Logs-answer event.event_id _ _ (logged event t known s)))
  ]

  mark_delivered-Triple :
      (event_id delivered_at now : ℕ)
      → Triple env I.Holds
          (λ c v. I.Holds c × HasLog event_id c)
          (Outbox.mark_delivered event_id delivered_at now)
          (λ u. Outside I.Holds)
  unfolding Outbox.mark_delivered mark_delivered_statement
  mark_delivered-Triple event_id delivered_at now = elim (Bool-cases (event_id == 0)) [
    | inl missing ↦ rw missing (record { run = λ w p. p.0 })
    | inr valid ↦ rw valid (
        exec_pool-Triple _ (λ t. I.Holds t × HasLog event_id t)
          (λ n c v p. others.logs event_id n c p) (λ t s. s.0)
          (λ t s. I.mark_delivered event_id _ t s.0 s.1)
          (λ t s. I.mark_delivered event_id _ t s.0 s.1))
  ]

  record_failure-KeepsOutside :
      (event_id : ℕ) (message : _) (next now : ℕ)
      → KeepsOutside env I.Holds (Outbox.record_failure event_id message next now)
  unfolding Outbox.record_failure
  record_failure-KeepsOutside event_id message next now =
      if-KeepsOutside env I.Holds (event_id == 0) _ _ (raise-KeepsOutside env I.Holds _)
        (exec_pool-KeepsOutside env I.Holds others.holds _ (I.record_failure event_id message _))

  process_event-KeepsOutside :
      (relay : Relay) (moment : Moment) (event : AuditEvent)
      → I.Known event
      → KeepsOutside env I.Holds (process_event relay moment event)
  unfolding process_event
  process_event-KeepsOutside relay moment event known =
      attempt-Triple _ _ (insert_projection-Triple event known)
        (λ u.
          attempt-Triple _ _ (mark_delivered-Triple event.event_id moment.now moment.now)
            (λ u.
              bind-Triple (record_metric-Triple relay.collector _)
                (λ u. pure-KeepsOutside env I.Holds true))
            (λ e.
              bind-Triple (record_metric-Triple relay.collector _)
                (λ u. pure-KeepsOutside env I.Holds false)))
        (λ e. bind-Triple (record_metric-Triple relay.collector _) (λ u.
          bind-Triple
            (ignore_error-Triple _ (record_failure-KeepsOutside event.event_id _ _ _)
              (λ a c v p. p))
            (λ u. pure-KeepsOutside env I.Holds false)))

  unless_done-KeepsOutside :
      (e : Option Cause) (n : ℕ) (rest : Action (ℕ × Option Failure))
      → KeepsOutside env I.Holds rest
      → KeepsOutside env I.Holds (unless_done e n rest)
  unless_done-KeepsOutside (some cause) n rest h = pure-KeepsOutside env I.Holds _
  unless_done-KeepsOutside none n rest h = h

  process_events-KeepsOutside :
      (relay : Relay) (moments : ℕ → Moment) (turn n : ℕ) (events : List AuditEvent)
      → All I.Known events
      → KeepsOutside env I.Holds (process_events relay moments turn n events)
  unfolding process_events
  process_events-KeepsOutside relay moments turn n [] known = pure-KeepsOutside env I.Holds _
  process_events-KeepsOutside relay moments turn n (event ∷ events) known =
      unless_done-KeepsOutside (moments turn).context_error n _ (
        bind-Triple (process_event-KeepsOutside relay (moments turn) event known.0) (λ processed.
          process_events-KeepsOutside relay moments (suc turn) (counted processed n) events
            known.1))

  -- The events that a fetch returns are known.
  fetch_pending-Triple :
      (relay : Relay) (now : ℕ) (limit : ℤ)
      → Triple env I.Holds
          (Outside I.Holds)
          (Outbox.fetch_pending relay.locked relay.lease now limit)
          (λ events c v. I.Holds c × All I.Known events)
  unfolding Outbox.fetch_pending fetch_statement
  fetch_pending-Triple relay now limit =
      exec_pool-Triple (fetch_statement relay.locked _ now _) I.Holds
        (λ n c v p. others.holds n c p) (λ t s. s) (λ t s. I.fetch relay.locked _ now _ t s)
        (λ t s. (
          I.fetch relay.locked _ now _ t s,
          All-mapped I.Known (λ row. row.event) (keep _ t.audit_outbox)
              (All-keep _ _ t.audit_outbox (I.known t s)),
        ))

  fetched-Triple :
      (relay : Relay) (moments : ℕ → Moment) (events : List AuditEvent)
      → Triple env I.Holds
          (λ c v. I.Holds c × All I.Known events)
          (fetched relay moments (ok events))
          (λ counts. Outside I.Holds)
  fetched-Triple relay moments events = record {
    run = λ w p.
        (bind-Triple (record_metric-Triple relay.collector _)
            (λ u. process_events-KeepsOutside relay moments 0 0 events p.1)).run
          w p.0;
  }

  pub process_batch-KeepsOutside :
      (relay : Relay) (moments : ℕ → Moment) (now : ℕ) (batch_size : ℤ)
      → KeepsOutside env I.Holds (process_batch relay moments now batch_size)
  unfolding process_batch
  process_batch-KeepsOutside relay moments now batch_size =
      attempt-Triple _ _ (fetch_pending-Triple relay now _)
        (λ events. fetched-Triple relay moments events) (λ e. pure-KeepsOutside env I.Holds _)

  pub cleanup-KeepsOutside :
      (relay : Relay) (now : ℕ) → KeepsOutside env I.Holds (cleanup relay now)
  unfolding cleanup Outbox.cleanup_delivered
  cleanup-KeepsOutside relay now =
      exec_pool-KeepsOutside env I.Holds others.holds _ (I.cleanup now _)
