-- ===== src/Service/Relay/Ledger.antt =====
-- internal/service/audit/relay.go and internal/service/disbursement/service.go: the audit trail while the
-- relay moves its events from the outbox to the log. No id is drawn for two events.
use Prim.Native.String.{String}
use disbursment_api.Base.{
  ℕ, ◌≡◌, refl, sym, ap, ◌∙◌, Bool, true, ◌&&◌, List, [], ◌∷◌, ◌++◌, find, All, arith, Bool-cases,
  inl, inr, is_some, update_where, keep, not, ◌==◌,
}
use disbursment_api.Base.Parts.{All-join, All-keep, All-map, All-update_where, is_some-find-append}
use disbursment_api.Base.Text.{Text, text_eq}
use disbursment_api.Domain.Audit.{AuditEvent}
use disbursment_api.Repository.Tables.{OutboxRow, Tables}
use disbursment_api.Repository.World.Keeps.{Preserves}
use disbursment_api.Repository.Outbox.{
  is_log, chosen, chosen_ids, fetch_statement, is_pending_event, deliver_row, outbox_row,
  mark_delivered_statement, failure_row, record_failure_statement, is_stale, cleanup_statement,
}
use disbursment_api.Service.Disbursement.Trail.{tells, has_event, Audited, Side, Kept, All-mono}
use disbursment_api.Service.Relay.Logged.{
  HasLog, DeliveredLogged, find-event-update_where, append-HasLog, append-DeliveredLogged,
  deliver-DeliveredLogged, cleanup-finds, Tracked,
}

-- What each id has been drawn for: the entity and the action of an event.
abbrev pub Says : (ℕ → ℕ × Text) → AuditEvent → Type 0
Says drawn event = drawn event.event_id ≡ (event.entity_id, event.action)

-- The events of the outbox and of the log are those that their ids have been drawn for, every delivered
-- event is in the log, and so are the events that have to be.
pub record Linked (drawn : ℕ → ℕ × Text) (Entered : ℕ → Type 0) (rows : List OutboxRow)
    (logs : List AuditEvent) : Type 0 where
  pub rows_say : All (λ row. Says drawn row.event) rows
  pub logs_say : All (Says drawn) logs
  pub delivered_logged : DeliveredLogged rows logs
  pub entered : (id : ℕ) → Entered id → is_some (find (is_log id) logs) ≡ true

module _ (drawn : ℕ → ℕ × Text) (Entered : ℕ → Type 0) where
  pub insertion-Linked :
      (event : AuditEvent) (now : ℕ) (rows : List OutboxRow) (logs : List AuditEvent)
      → Says drawn event
      → Linked drawn Entered rows logs
      → Linked drawn Entered (rows ++ outbox_row event now ∷ []) logs
  unfolding outbox_row
  insertion-Linked event now rows logs says h = record {
    rows_say = All-join _ rows (outbox_row event now ∷ []) h.rows_say (says, tt);
    logs_say = h.logs_say;
    delivered_logged = All-join _ rows (outbox_row event now ∷ []) h.delivered_logged (refl, tt);
    entered = h.entered;
  }

  abbrev pub ledger : Side
  ledger = record {
    Holds = Linked drawn Entered;
    Names = λ event_id id action. drawn event_id ≡ (id, action);
    insertion = insertion-Linked;
  }

-- An UPDATE that leaves the events alone leaves the trail.
updated-Audited :
    (p : OutboxRow → Bool) (f : OutboxRow → OutboxRow) (t : Tables)
    → ((row : OutboxRow) → (f row).event ≡ row.event)
    → Audited t
    → Audited (record t { audit_outbox = update_where p f t.audit_outbox })
updated-Audited p f t same =
    All-mono (has_event t) (has_event (record t { audit_outbox = update_where p f t.audit_outbox }))
      t.disbursements
      (λ id action h. rw (find-event-update_where (tells id action) p f t.audit_outbox same) h)

-- Two events with one id tell the same.
found_again :
    (drawn : ℕ → ℕ × Text) (event : AuditEvent) (id : ℕ) (action : Text) (logs : List AuditEvent)
    → Says drawn event
    → All (Says drawn) logs
    → is_some (find (is_log event.event_id) logs) ≡ true
    → tells id action event ≡ true
    → is_some (find (tells id action) logs) ≡ true
found_again drawn event id action [] says all log told = log
found_again drawn event id action (entry ∷ logs) says all log told =
    elim (Bool-cases (entry.event_id == event.event_id)) [
      | inl same ↦
          let e : entry.event_id ≡ event.event_id = ground (arith, same) in
          let pairs : (event.entity_id, event.action) ≡ (entry.entity_id, entry.action) =
            sym says ∙ (rw (sym e) all.0) in
          let heard : tells id action entry ≡ true =
            sym (ap (λ told. told.0 == id && text_eq told.1 action) pairs) ∙ told in
          rw heard refl
      | inr other ↦
          let earlier : is_some (find (is_log event.event_id) logs) ≡ true =
            ground (arith, other, log) in
          let rest = found_again drawn event id action logs says all.1 earlier told in
          ground (arith, rest)
    ]

found_again-All :
    (drawn : ℕ → ℕ × Text) (id : ℕ) (action : Text) (logs : List AuditEvent) (rows : List OutboxRow)
    → All (Says drawn) logs
    → All (λ row. Says drawn row.event) rows
    → All
        (λ row.
          is_some (find (is_log row.event.event_id) logs) ≡ true
          → tells id action row.event ≡ true
          → is_some (find (tells id action) logs) ≡ true)
        rows
found_again-All drawn id action logs rows all =
    All-map rows (λ row says log told. found_again drawn row.event id action logs says all log told)

module _ (drawn : ℕ → ℕ × Text) (Entered : ℕ → Type 0) where
  pub fetch-Kept :
      (locked : ℕ → Bool) (until now limit : ℕ)
      → Preserves (Kept (ledger drawn Entered)) (fetch_statement locked until now limit)
  unfolding fetch_statement
  fetch-Kept locked until now limit t (trail, h) =
      let p = chosen (chosen_ids locked now limit t.audit_outbox) in
      (
        updated-Audited p (λ row. record row { available_at = until }) t (λ row. refl) trail,
        record {
          rows_say = All-update_where _ p _ t.audit_outbox (λ row l c. l) h.rows_say;
          logs_say = h.logs_say;
          delivered_logged =
              All-update_where _ p _ t.audit_outbox (λ row l c. l) h.delivered_logged;
          entered = h.entered;
        },
      )

  pub record_failure-Kept :
      (event_id : ℕ) (message : String) (next : ℕ)
      → Preserves (Kept (ledger drawn Entered)) (record_failure_statement event_id message next)
  unfolding record_failure_statement failure_row
  record_failure-Kept event_id message next t (trail, h) =
      let p = is_pending_event event_id in
      (
        updated-Audited p (failure_row message next) t (λ row. refl) trail,
        record {
          rows_say =
              All-update_where _ p (failure_row message next) t.audit_outbox (λ row l c. l)
                h.rows_say;
          logs_say = h.logs_say;
          delivered_logged =
              All-update_where _ p (failure_row message next) t.audit_outbox (λ row l c. l)
                h.delivered_logged;
          entered = h.entered;
        },
      )

  pub mark_delivered-Kept :
      (event_id at : ℕ) (t : Tables)
      → Kept (ledger drawn Entered) t
      → HasLog event_id t
      → Kept (ledger drawn Entered) (mark_delivered_statement event_id at t).1
  unfolding mark_delivered_statement deliver_row
  mark_delivered-Kept event_id at t (trail, h) log =
      let p = is_pending_event event_id in
      (
        updated-Audited p (deliver_row at) t (λ row. refl) trail,
        record {
          rows_say = All-update_where _ p (deliver_row at) t.audit_outbox (λ row l c. l) h.rows_say;
          logs_say = h.logs_say;
          delivered_logged =
              deliver-DeliveredLogged event_id at t.audit_outbox t.audit_logs log
                h.delivered_logged;
          entered = h.entered;
        },
      )

  pub insert_log-Kept :
      (event : AuditEvent) (t : Tables)
      → Says drawn event
      → Kept (ledger drawn Entered) t
      → Kept (ledger drawn Entered) (record t { audit_logs = t.audit_logs ++ event ∷ [] })
  insert_log-Kept event t says (trail, h) = (
    All-mono (has_event t) (has_event (record t { audit_logs = t.audit_logs ++ event ∷ [] }))
        t.disbursements
        (λ id action there.
          ground (arith, is_some-find-append (tells id action) t.audit_logs event))
        trail,
    record {
      rows_say = h.rows_say;
      logs_say = All-join _ t.audit_logs (event ∷ []) h.logs_say (says, tt);
      delivered_logged =
          append-DeliveredLogged t.audit_outbox t.audit_logs event h.delivered_logged;
      entered = λ id e. append-HasLog id t.audit_logs event (h.entered id e);
    },
  )

  -- What a cleanup deletes the log tells as well.
  pub cleanup-Kept :
      (now age : ℕ) → Preserves (Kept (ledger drawn Entered)) (cleanup_statement now age)
  unfolding cleanup_statement
  cleanup-Kept now age t (trail, h) =
      let fresh = keep (λ row. not (is_stale now age row)) t.audit_outbox in
      (
        All-mono (has_event t) (has_event (record t { audit_outbox = fresh })) t.disbursements
            (λ id action there.
              cleanup-finds (tells id action) t.audit_logs now age t.audit_outbox
                (found_again-All drawn id action t.audit_logs t.audit_outbox h.logs_say h.rows_say)
                h.delivered_logged there)
            trail,
        record {
          rows_say = All-keep _ _ t.audit_outbox h.rows_say;
          logs_say = h.logs_say;
          delivered_logged = All-keep _ _ t.audit_outbox h.delivered_logged;
          entered = h.entered;
        },
      )

  abbrev pub tracked_ledger : Tracked
  tracked_ledger = record {
    Holds = Kept (ledger drawn Entered);
    Known = Says drawn;
    known = λ t h. h.1.rows_say;
    fetch = fetch-Kept;
    record_failure = record_failure-Kept;
    insert_log = insert_log-Kept;
    mark_delivered = mark_delivered-Kept;
    cleanup = cleanup-Kept;
  }
