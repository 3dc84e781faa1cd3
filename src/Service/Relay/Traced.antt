-- ===== src/Service/Relay/Traced.antt =====
-- internal/repository/postgres/outbox.go and projection.go under the relay: the statements keep the
-- trace of every event.
use Prim.Native.String.{String}
use disbursment_api.Base.{
  ℕ, ◌≡◌, refl, sym, Bool, true, ◌||◌, List, [], ◌∷◌, ◌++◌, find, All, arith, is_some,
}
use disbursment_api.Base.Parts.{All-keep, All-update_where}
use disbursment_api.Domain.Audit.{AuditEvent}
use disbursment_api.Repository.Tables.{OutboxRow, Tables}
use disbursment_api.Repository.World.Keeps.{Preserves}
use disbursment_api.Repository.Outbox.{
  is_event, is_log, chosen, chosen_ids, fetch_statement, is_pending_event, deliver_row,
  mark_delivered_statement, failure_row, record_failure_statement, cleanup_statement,
}
use disbursment_api.Service.Relay.Logged.{
  HasLog, DeliveredLogged, find-event-update_where, append-HasLog, append-DeliveredLogged,
  deliver-DeliveredLogged, cleanup-finds, Tracked,
}

-- Every delivered event is in the log, and the event with this id is in the outbox or in the log.
pub record Traced (id : ℕ) (t : Tables) : Type 0 where
  pub delivered_logged : DeliveredLogged t.audit_outbox t.audit_logs
  pub traced :
      (is_some (find (is_event id) t.audit_outbox) || is_some (find (is_log id) t.audit_logs))
      ≡ true

module _ (id : ℕ) where
  pub fetch-Traced :
      (locked : ℕ → Bool) (lease_until now limit : ℕ)
      → Preserves (Traced id) (fetch_statement locked lease_until now limit)
  unfolding fetch_statement
  fetch-Traced locked lease_until now limit t h =
      let p = chosen (chosen_ids locked now limit t.audit_outbox) in
      record {
        delivered_logged = All-update_where _ p _ t.audit_outbox (λ row l c. l) h.delivered_logged;
        traced =
            rw
              (find-event-update_where (is_log id) p
                (λ row. record row { available_at = lease_until }) t.audit_outbox (λ row. refl))
              h.traced;
      }

  pub record_failure-Traced :
      (event_id : ℕ) (message : String) (next : ℕ)
      → Preserves (Traced id) (record_failure_statement event_id message next)
  unfolding record_failure_statement failure_row
  record_failure-Traced event_id message next t h = record {
    delivered_logged =
        All-update_where _ (is_pending_event event_id) (failure_row message next) t.audit_outbox
          (λ row l c. l) h.delivered_logged;
    traced =
        rw
          (find-event-update_where (is_log id) (is_pending_event event_id)
            (failure_row message next) t.audit_outbox (λ row. refl))
          h.traced;
  }

  -- A delivery is marked after its event is in the log.
  pub mark_delivered-Traced :
      (event_id at : ℕ) (t : Tables)
      → Traced id t
      → HasLog event_id t
      → Traced id (mark_delivered_statement event_id at t).1
  unfolding mark_delivered_statement deliver_row
  mark_delivered-Traced event_id at t h log = record {
    delivered_logged =
        deliver-DeliveredLogged event_id at t.audit_outbox t.audit_logs log h.delivered_logged;
    traced =
        rw
          (find-event-update_where (is_log id) (is_pending_event event_id) (deliver_row at)
            t.audit_outbox (λ row. refl))
          h.traced;
  }

  pub insert_log-Traced :
      (event : AuditEvent) (t : Tables)
      → Traced id t
      → Traced id (record t { audit_logs = t.audit_logs ++ event ∷ [] })
  insert_log-Traced event t h = record {
    delivered_logged = append-DeliveredLogged t.audit_outbox t.audit_logs event h.delivered_logged;
    traced = ground (arith, h.traced, append-HasLog id t.audit_logs event);
  }

  same_id :
      (logs : List AuditEvent) (rows : List OutboxRow)
      → All
          (λ row.
            is_some (find (is_log row.event.event_id) logs) ≡ true
            → is_log id row.event ≡ true
            → is_some (find (is_log id) logs) ≡ true)
          rows
  same_id logs [] = tt
  same_id logs (row ∷ rows) = (
    λ log same. let e : row.event.event_id ≡ id = ground (arith, same) in rw (sym e) log,
    same_id logs rows,
  )

  -- What a cleanup deletes is in the log.
  pub cleanup-Traced : (now age : ℕ) → Preserves (Traced id) (cleanup_statement now age)
  unfolding cleanup_statement
  cleanup-Traced now age t h = record {
    delivered_logged = All-keep _ _ t.audit_outbox h.delivered_logged;
    traced =
        cleanup-finds (is_log id) t.audit_logs now age t.audit_outbox
          (same_id t.audit_logs t.audit_outbox) h.delivered_logged h.traced;
  }

  pub any_known : (rows : List OutboxRow) → All (λ row. Unit {0}) rows
  any_known [] = tt
  any_known (row ∷ rows) = (tt, any_known rows)

  abbrev pub tracked_event : Tracked
  tracked_event = record {
    Holds = Traced id;
    Known = λ event. Unit;
    known = λ t h. any_known t.audit_outbox;
    fetch = fetch-Traced;
    record_failure = record_failure-Traced;
    insert_log = λ event t known h. insert_log-Traced event t h;
    mark_delivered = mark_delivered-Traced;
    cleanup = cleanup-Traced;
  }
