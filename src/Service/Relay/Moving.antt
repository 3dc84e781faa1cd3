-- ===== src/Service/Relay/Moving.antt =====
-- internal/service/audit/relay.go: what the deliveries of events make of the log and the outbox, where the
-- database carries them out.
use disbursment_api.Base.{
  ℕ, suc, ◌≡◌, refl, true, false, List, [], ◌∷◌, ◌++◌, find, count, update_where, is_some, All,
  arith, Bool-cases, inl, inr, ◌==◌, if◌then◌else◌,
}
use disbursment_api.Base.Parts.{is_some-find-append}
use disbursment_api.Domain.Audit.{AuditEvent}
use disbursment_api.Repository.Tables.{OutboxRow, Tables, User}
use disbursment_api.Repository.Disbursements.{user_exists}
use disbursment_api.Repository.World.{returned}
use disbursment_api.Repository.Outbox.{
  event_invalid, is_log, is_pending_event, deliver_row, insert_log_statement,
  mark_delivered_statement,
}
use disbursment_api.Service.Relay.{Moment}
use disbursment_api.Service.Relay.Logged.{HasLog, append-HasLog}

-- An event that the stores accept, of a user that there is.
abbrev pub IsDeliverable : List User → AuditEvent → Type 0
IsDeliverable users event =
    (event_invalid event ≡ false) × (user_exists event.actor_id users ≡ true)

-- An event that is in the log, and no longer pending in the outbox.
abbrev pub IsDelivered : Tables → ℕ → Type 0
IsDelivered t id = HasLog id t × (count (is_pending_event id) t.audit_outbox ≡ 0)

-- The log and the outbox after an event has been delivered at a time.
abbrev pub logged : AuditEvent → Tables → Tables
logged event t = (insert_log_statement event t).1

abbrev pub delivered : ℕ → AuditEvent → Tables → Tables
delivered now event t =
    (mark_delivered_statement event.event_id (if now == 0 then now else now) (logged event t)).1

pub insert_log-returned :
    (event : AuditEvent) (t : Tables)
    → user_exists event.actor_id t.users ≡ true
    → (insert_log_statement event t).0 ≡ returned tt
unfolding insert_log_statement
insert_log-returned event t user =
    elim (Bool-cases (is_some (find (is_log event.event_id) t.audit_logs))) [
      | inl known ↦ rw known refl
      | inr fresh ↦ rw (fresh, user) refl
    ]

-- What an insertion into the log leaves alone, and what it adds.
record Entered (event : AuditEvent) (t after : Tables) : Type 0 where
  users : after.users ≡ t.users
  outbox : after.audit_outbox ≡ t.audit_outbox
  entry : HasLog event.event_id after
  kept : (id : ℕ) → HasLog id t → HasLog id after

insert_log-Entered :
    (event : AuditEvent) (t : Tables)
    → user_exists event.actor_id t.users ≡ true
    → Entered event t (logged event t)
unfolding insert_log_statement
insert_log-Entered event t user =
    elim (Bool-cases (is_some (find (is_log event.event_id) t.audit_logs))) [
      | inl known ↦
          rw (logged, known)
            (record { users = refl; outbox = refl; entry = known; kept = λ id h. h })
      | inr fresh ↦
          let entry : is_some (find (is_log event.event_id) (t.audit_logs ++ event ∷ [])) ≡ true =
            ground (arith, is_some-find-append (is_log event.event_id) t.audit_logs event) in
          rw (logged, fresh, user)
            (record {
              users = refl;
              outbox = refl;
              entry = entry;
              kept = λ id h. append-HasLog id t.audit_logs event h;
            })
    ]

-- A delivery leaves no row of its event pending, and makes none pending.
deliver-none_pending :
    (event_id at : ℕ) (rows : List OutboxRow)
    → count
        (is_pending_event event_id)
        (update_where (is_pending_event event_id) (deliver_row at) rows)
      ≡ 0
unfolding deliver_row
deliver-none_pending event_id at [] = refl
deliver-none_pending event_id at (row ∷ rows) =
    ground (arith, deliver-none_pending event_id at rows)

deliver-still_none :
    (id event_id at : ℕ) (rows : List OutboxRow)
    → count (is_pending_event id) rows ≡ 0
    → count (is_pending_event id) (update_where (is_pending_event event_id) (deliver_row at) rows)
      ≡ 0
unfolding deliver_row
deliver-still_none id event_id at [] h = refl
deliver-still_none id event_id at (row ∷ rows) h =
    ground (arith, deliver-still_none id event_id at rows)

-- A delivery brings its event to the log and keeps what has been delivered.
pub record Moved (event : AuditEvent) (t after : Tables) : Type 0 where
  pub users : after.users ≡ t.users
  pub arrived : IsDelivered after event.event_id
  pub kept : (id : ℕ) → IsDelivered t id → IsDelivered after id

pub delivered-Moved :
    (now : ℕ) (event : AuditEvent) (t : Tables)
    → user_exists event.actor_id t.users ≡ true
    → Moved event t (delivered now event t)
unfolding mark_delivered_statement
delivered-Moved now event t user =
    let e = insert_log-Entered event t user in
    let at = if now == 0 then now else now in
    record {
      users = e.users;
      arrived = (e.entry, deliver-none_pending event.event_id at (logged event t).audit_outbox);
      kept = λ id h. (
        e.kept id h.0,
        deliver-still_none id event.event_id at (logged event t).audit_outbox (rw e.outbox h.1),
      );
    }

-- The tables after a batch, of which the n-th event is delivered at the n-th moment.
unfoldable pub all_delivered : (ℕ → Moment) → ℕ → List AuditEvent → Tables → Tables
all_delivered moments turn [] t = t
all_delivered moments turn (event ∷ events) t =
    all_delivered moments (suc turn) events (delivered (moments turn).now event t)

all_delivered-kept :
    (moments : ℕ → Moment) (turn id : ℕ) (events : List AuditEvent) (t : Tables)
    → All (IsDeliverable t.users) events
    → IsDelivered t id
    → IsDelivered (all_delivered moments turn events t) id
unfolding all_delivered
all_delivered-kept moments turn id [] t can h = h
all_delivered-kept moments turn id (event ∷ events) t can h =
    let m = delivered-Moved (moments turn).now event t can.0.1 in
    all_delivered-kept moments (suc turn) id events _ (rw m.users can.1) (m.kept id h)

pub all_delivered-IsDelivered :
    (moments : ℕ → Moment) (turn : ℕ) (events : List AuditEvent) (t : Tables)
    → All (IsDeliverable t.users) events
    → All (λ event. IsDelivered (all_delivered moments turn events t) event.event_id) events
unfolding all_delivered
all_delivered-IsDelivered moments turn [] t can = tt
all_delivered-IsDelivered moments turn (event ∷ events) t can =
    let m = delivered-Moved (moments turn).now event t can.0.1 in
    let rest : All (IsDeliverable (delivered (moments turn).now event t).users) events =
      rw m.users can.1 in
    (
      all_delivered-kept moments (suc turn) event.event_id events _ rest m.arrived,
      all_delivered-IsDelivered moments (suc turn) events _ rest,
    )
