-- ===== src/Repository/Outbox.antt =====
-- internal/repository/postgres/outbox.go and projection.go: the audit outbox and the audit log. `now`
-- is what the store's clock reads.
pub mod Waiting
pub mod Delivery
use Prim.Native.String.{String}
use disbursment_api.Base.{
  ℕ, suc, ◌+◌, ◌-◌, ◌*◌, Bool, true, false, not, ◌&&◌, ◌||◌, Option, none, some, List, [], ◌∷◌,
  ◌++◌, length, take, find, count, keep, map, update_where, ltb, leb, ◌==◌, if◌then◌else◌, is_some,
}
use disbursment_api.Base.Int.{ℤ, pos, ltb_ℤ, leb_ℤ, pos_part}
use disbursment_api.Base.Text.{Text, is_empty}
use disbursment_api.Failure.{Cause, no_rows, postgres, plain, Failure, repository, constraint}
use disbursment_api.Domain.Audit.{AuditEvent}
use disbursment_api.Repository.Tables.{OutboxRow, Tables}
use disbursment_api.Repository.World.{
  Statement, returned, failed, Action, pure, raise, exec_tx, exec_pool, ◌>>=◌,
}
use disbursment_api.Repository.Disbursements.{user_exists}

-- The guard that both stores put in front of an event.
unfoldable pub event_invalid : AuditEvent → Bool
event_invalid event =
    event.event_id == 0
    || event.entity_id == 0
    || event.actor_id == 0
    || event.request_id == 0
    || is_empty event.entity_type
    || is_empty event.action
    || event.occurred_at == 0

abbrev pub is_event : ℕ → OutboxRow → Bool
is_event id row = row.event.event_id == id

-- `insertAuditOutboxEvent`: the columns that it does not name have the schema's defaults, with
-- `available_at` the server's time `now`.
unfoldable pub outbox_row : AuditEvent → ℕ → OutboxRow
outbox_row event now = record {
  event = event;
  delivered = false;
  available_at = now;
  delivered_at = none;
  delivery_attempts = 0;
  last_delivery_error = none;
}

unfoldable pub insert_event_statement : AuditEvent → ℕ → Statement (Unit {0})
unfolding outbox_row
insert_event_statement event now t =
    if is_some (find (is_event event.event_id) t.audit_outbox)
    then (failed (postgres "23505"), t)
    else if ltb 64 (length event.entity_type) || ltb 64 (length event.action)
    then (failed (postgres "22001"), t)
    else if not (user_exists event.actor_id t.users)
    then (failed (postgres "23503"), t)
    else (returned tt, record t { audit_outbox = t.audit_outbox ++ outbox_row event now ∷ [] })

-- `AuditOutboxStore.Insert`. An INSERT with one row of values affects one row.
unfoldable pub insert : AuditEvent → ℕ → Action (Unit {0})
insert event now =
    if event_invalid event
    then raise (repository constraint (plain "invalid audit event"))
    else exec_tx (insert_event_statement event now)

abbrev pub default_limit : ℕ
default_limit = 50

-- Five minutes, the lease of a fetched event where none is set.
abbrev pub default_lease : ℕ
default_lease = 300000000000

abbrev pub limit_or_default : ℤ → ℕ
limit_or_default limit = if leb_ℤ limit (pos 0) then default_limit else pos_part limit

abbrev pub positive_or : ℤ → ℕ → ℕ
positive_or duration fallback = if leb_ℤ duration (pos 0) then fallback else pos_part duration

-- The rows that the inner SELECT of `fetchPendingOutboxEvents` sees; rows that another session has
-- locked are skipped.
unfoldable pub available : (ℕ → Bool) → ℕ → OutboxRow → Bool
available locked now row =
    not row.delivered && (leb row.available_at now && not (locked row.event.event_id))

-- `ORDER BY available_at ASC, occurred_at ASC`.
unfoldable pub goes_first : OutboxRow → OutboxRow → Bool
goes_first a b =
    ltb a.available_at b.available_at
    || (a.available_at == b.available_at && leb a.event.occurred_at b.event.occurred_at)

unfoldable pub place : OutboxRow → List OutboxRow → List OutboxRow
unfolding goes_first
place a [] = a ∷ []
place a (b ∷ rows) = if goes_first a b then a ∷ b ∷ rows else b ∷ place a rows

unfoldable pub order : List OutboxRow → List OutboxRow
unfolding place
order [] = []
order (a ∷ rows) = place a (order rows)

abbrev pub chosen_ids : (ℕ → Bool) → ℕ → ℕ → List OutboxRow → List ℕ
chosen_ids locked now limit rows =
    map (λ row. row.event.event_id) (take limit (order (keep (available locked now) rows)))

unfoldable pub is_in : ℕ → List ℕ → Bool
is_in id [] = false
is_in id (i ∷ ids) = id == i || is_in id ids

abbrev pub chosen : List ℕ → OutboxRow → Bool
chosen ids row = is_in row.event.event_id ids

-- `fetchPendingOutboxEvents`: the chosen rows are leased, and their events returned.
unfoldable pub fetch_statement : (ℕ → Bool) → ℕ → ℕ → ℕ → Statement (List AuditEvent)
unfolding available order is_in
fetch_statement locked lease_until now limit t =
    let ids = chosen_ids locked now limit t.audit_outbox in
    (
      returned (map (λ row. row.event) (keep (chosen ids) t.audit_outbox)),
      record t {
        audit_outbox =
            update_where (chosen ids) (λ row. record row { available_at = lease_until })
              t.audit_outbox;
      },
    )

unfoldable pub fetch_pending : (ℕ → Bool) → ℤ → ℕ → ℤ → Action (List AuditEvent)
fetch_pending locked lease_duration now limit = exec_pool (
    fetch_statement locked (now + positive_or lease_duration default_lease) now
      (limit_or_default limit))

-- `WHERE event_id = … AND delivery_state = 'PENDING'`.
abbrev pub is_pending_event : ℕ → OutboxRow → Bool
is_pending_event id row = is_event id row && not row.delivered

-- `markOutboxDelivered`.
unfoldable pub deliver_row : ℕ → OutboxRow → OutboxRow
deliver_row at row = record row {
  delivered = true;
  delivered_at = some at;
  delivery_attempts = row.delivery_attempts + 1;
  last_delivery_error = none;
}

unfoldable pub mark_delivered_statement : ℕ → ℕ → Statement (Unit {0})
unfolding deliver_row
mark_delivered_statement id at t = (
  returned tt,
  record t { audit_outbox = update_where (is_pending_event id) (deliver_row at) t.audit_outbox },
)

unfoldable pub mark_delivered : ℕ → ℕ → ℕ → Action (Unit {0})
mark_delivered id delivered_at now =
    if id == 0
    then raise (repository constraint (plain "event ID required"))
    else exec_pool (mark_delivered_statement id (if delivered_at == 0 then now else delivered_at))

-- `recordOutboxFailure`.
unfoldable pub failure_row : String → ℕ → OutboxRow → OutboxRow
failure_row message next row = record row {
  delivery_attempts = row.delivery_attempts + 1;
  last_delivery_error = some message;
  available_at = next;
}

unfoldable pub record_failure_statement : ℕ → String → ℕ → Statement (Unit {0})
unfolding failure_row
record_failure_statement id message next t = (
  returned tt,
  record t {
    audit_outbox = update_where (is_pending_event id) (failure_row message next) t.audit_outbox;
  },
)

unfoldable pub record_failure : ℕ → String → ℕ → ℕ → Action (Unit {0})
record_failure id message next_available_at now =
    if id == 0
    then raise (repository constraint (plain "event ID required"))
    else exec_pool (
        record_failure_statement id message
          (if next_available_at == 0 then now + 5000000000 else next_available_at))

-- `occurred_at <= now - age`, for a pending row.
abbrev pub older_than : ℕ → ℕ → OutboxRow → Bool
older_than now age row = not row.delivered && leb (row.event.occurred_at + age) now

unfoldable pub reconcile_statement : ℕ → ℕ → ℕ → Statement (ℕ × ℕ)
reconcile_statement now min_age critical_age t = (
  returned (
    count (older_than now min_age) t.audit_outbox,
    count (older_than now critical_age) t.audit_outbox,
  ),
  t,
)

unfoldable pub critical_or_default : ℕ → ℤ → ℕ
critical_or_default min_age critical_age =
    if leb_ℤ critical_age (pos min_age) then 3 * min_age else pos_part critical_age

unfoldable pub reconcile_pending : ℤ → ℤ → ℕ → Action (ℕ × ℕ)
unfolding critical_or_default
reconcile_pending min_age critical_age now =
    let minimum = positive_or min_age default_lease in
    exec_pool (reconcile_statement now minimum (critical_or_default minimum critical_age))

-- `delivered_at < now - age`, for a delivered row.
abbrev delivered_before : ℕ → ℕ → Option ℕ → Bool
delivered_before now age none = false
delivered_before now age (some at) = ltb (at + age) now

unfoldable pub is_stale : ℕ → ℕ → OutboxRow → Bool
is_stale now age row = row.delivered && delivered_before now age row.delivered_at

-- `cleanupDeliveredOutbox`.
unfoldable pub cleanup_statement : ℕ → ℕ → Statement ℕ
unfolding is_stale
cleanup_statement now age t = (
  returned (count (is_stale now age) t.audit_outbox),
  record t { audit_outbox = keep (λ row. not (is_stale now age row)) t.audit_outbox },
)

-- Thirty days.
abbrev pub default_retention : ℕ
default_retention = 2592000000000000

unfoldable pub cleanup_delivered : ℤ → ℕ → Action ℕ
cleanup_delivered older now =
    exec_pool (cleanup_statement now (positive_or older default_retention))

abbrev pub is_log : ℕ → AuditEvent → Bool
is_log id event = event.event_id == id

-- `insertAuditProjectionLog`: ON CONFLICT (source_event_id) DO NOTHING.
unfoldable pub insert_log_statement : AuditEvent → Statement (Unit {0})
insert_log_statement event t =
    if is_some (find (is_log event.event_id) t.audit_logs)
    then (returned tt, t)
    else if not (user_exists event.actor_id t.users)
    then (failed (postgres "23503"), t)
    else (returned tt, record t { audit_logs = t.audit_logs ++ event ∷ [] })

-- `InsertProjection` with no transaction, as the relay calls it.
unfoldable pub insert_projection : AuditEvent → Action (Unit {0})
insert_projection event =
    if event_invalid event
    then raise (repository constraint (plain "invalid audit event for projection"))
    else exec_pool (insert_log_statement event)

abbrev event_or_none : Option AuditEvent → Statement AuditEvent
event_or_none none t = (failed no_rows, t)
event_or_none (some event) t = (returned event, t)

unfoldable pub find_log_statement : ℕ → Statement AuditEvent
find_log_statement id t = event_or_none (find (is_log id) t.audit_logs) t

unfoldable pub find_log_by_source_event_id : ℕ → Action AuditEvent
find_log_by_source_event_id id = exec_pool (find_log_statement id)
