-- ===== src/Service/Relay/Logged.antt =====
-- internal/repository/postgres/outbox.go and projection.go under the relay: an event is marked as
-- delivered after it is in the log, and deleted from the outbox after that.
use disbursment_api.Base.{
  ℕ, ◌≡◌, refl, Bool, true, not, ◌||◌, List, [], ◌∷◌, ◌++◌, find, keep, update_where, All, arith,
  Bool-cases, inl, inr, is_some,
}
use disbursment_api.Base.Parts.{All-map, All-update_where, is_some-find-append}
use disbursment_api.Domain.Audit.{AuditEvent}
use disbursment_api.Repository.Tables.{OutboxRow, Tables}
use disbursment_api.Repository.Disbursements.{user_exists}
use disbursment_api.Repository.World.{Sql, returned, failed}
use disbursment_api.Repository.World.Keeps.{Preserves}
use disbursment_api.Repository.Outbox.{
  is_log, is_pending_event, deliver_row, is_stale, fetch_statement, record_failure_statement,
  mark_delivered_statement, cleanup_statement, insert_log_statement,
}

abbrev pub HasLog : ℕ → Tables → Type 0
HasLog id t = is_some (find (is_log id) t.audit_logs) ≡ true

abbrev pub logged_row : List AuditEvent → OutboxRow → Bool
logged_row logs row = not row.delivered || is_some (find (is_log row.event.event_id) logs)

-- Every delivered event is in the log.
abbrev pub DeliveredLogged : List OutboxRow → List AuditEvent → Type 0
DeliveredLogged rows logs = All (λ row. logged_row logs row ≡ true) rows

-- An UPDATE that leaves the events alone.
pub find-event-update_where :
    (q : AuditEvent → Bool) (p : OutboxRow → Bool) (f : OutboxRow → OutboxRow)
    (rows : List OutboxRow)
    → ((row : OutboxRow) → (f row).event ≡ row.event)
    → is_some (find (λ row. q row.event) (update_where p f rows))
      ≡ is_some (find (λ row. q row.event) rows)
find-event-update_where q p f [] same = refl
find-event-update_where q p f (row ∷ rows) same =
    let rest = find-event-update_where q p f rows same in
    elim (Bool-cases (p row)) [
      | inl hit ↦
          rw (hit, same row)
            (elim (Bool-cases (q row.event)) [
              | inl found ↦ rw found refl
              | inr passed ↦ rw passed rest
            ])
      | inr missed ↦ rw missed (elim (Bool-cases (q row.event)) [
        | inl found ↦ rw found refl
        | inr passed ↦ rw passed rest
      ])
    ]

pub append-HasLog :
    (id : ℕ) (logs : List AuditEvent) (event : AuditEvent)
    → is_some (find (is_log id) logs) ≡ true
    → is_some (find (is_log id) (logs ++ event ∷ [])) ≡ true
append-HasLog id logs event h = ground (arith, is_some-find-append (is_log id) logs event)

pub append-DeliveredLogged :
    (rows : List OutboxRow) (logs : List AuditEvent) (event : AuditEvent)
    → DeliveredLogged rows logs
    → DeliveredLogged rows (logs ++ event ∷ [])
append-DeliveredLogged rows logs event =
    All-map rows (λ row h. ground (arith, append-HasLog row.event.event_id logs event))

pub deliver-DeliveredLogged :
    (event_id at : ℕ) (rows : List OutboxRow) (logs : List AuditEvent)
    → is_some (find (is_log event_id) logs) ≡ true
    → DeliveredLogged rows logs
    → DeliveredLogged (update_where (is_pending_event event_id) (deliver_row at) rows) logs
unfolding deliver_row
deliver-DeliveredLogged event_id at rows logs log =
    All-update_where (λ row. logged_row logs row ≡ true) (is_pending_event event_id)
      (deliver_row at) rows
      (λ row h c. let same : row.event.event_id ≡ event_id = ground arith in rw same log)

pub stale-logged :
    (logs : List AuditEvent) (now age : ℕ) (row : OutboxRow)
    → is_stale now age row ≡ true
    → logged_row logs row ≡ true
    → is_some (find (is_log row.event.event_id) logs) ≡ true
unfolding is_stale
stale-logged logs now age row stale h = ground arith

-- An event that is in the outbox or in the log stays in one of them when the stale rows go, if the log's
-- entry of a delivered event passes each test that the event passes.
pub cleanup-finds :
    (q : AuditEvent → Bool) (logs : List AuditEvent) (now age : ℕ) (rows : List OutboxRow)
    → All
        (λ row.
          is_some (find (is_log row.event.event_id) logs) ≡ true
          → q row.event ≡ true
          → is_some (find q logs) ≡ true)
        rows
    → DeliveredLogged rows logs
    → (is_some (find (λ row. q row.event) rows) || is_some (find q logs)) ≡ true
    → (is_some (find (λ row. q row.event) (keep (λ row. not (is_stale now age row)) rows))
        || is_some (find q logs))
      ≡ true
cleanup-finds q logs now age [] same h there = there
cleanup-finds q logs now age (row ∷ rows) same h there = elim (Bool-cases (q row.event)) [
  | inl passes ↦ elim (Bool-cases (is_stale now age row)) [
    | inl stale ↦
        let log = same.0 (stale-logged logs now age row stale h.0) passes in ground (arith, log)
    | inr fresh ↦ ground (arith, fresh, passes)
  ]
  | inr other ↦
      let rest : _ = cleanup-finds q logs now age rows same.1 h.1 in ground (arith, other, rest)
]

-- What an answer to an insertion into the log leaves: the invariant, and after a success the entry.
abbrev pub Logs : (Tables → Type 0) → ℕ → Sql (Unit {0}) → Tables → Type 0
Logs I event_id (returned u) t = I t × HasLog event_id t
Logs I event_id (failed cause) t = I t

pub insert_log-Logs :
    (I : Tables → Type 0) (event : AuditEvent) (t : Tables)
    → I t
    → I (record t { audit_logs = t.audit_logs ++ event ∷ [] })
    → let (r, t') = insert_log_statement event t in Logs I event.event_id r t'
unfolding insert_log_statement
insert_log-Logs I event t h appended =
    elim (Bool-cases (is_some (find (is_log event.event_id) t.audit_logs))) [
      | inl known ↦ rw known (h, known)
      | inr fresh ↦ elim (Bool-cases (user_exists event.actor_id t.users)) [
        | inl user ↦
            let entry : is_some (find (is_log event.event_id) (t.audit_logs ++ event ∷ [])) ≡ true =
              ground (arith, is_some-find-append (is_log event.event_id) t.audit_logs event) in
            rw (fresh, user) (appended, entry)
        | inr stranger ↦ rw (fresh, stranger) h
      ]
    ]

-- An invariant that the statements of the relay keep, with what they know of the events of a batch.
pub record Tracked : Type 1 where
  pub Holds : Tables → Type 0
  pub Known : AuditEvent → Type 0
  pub known : (t : Tables) → Holds t → All (λ row. Known row.event) t.audit_outbox
  pub fetch :
      (locked : ℕ → Bool) (until now limit : ℕ)
      → Preserves Holds (fetch_statement locked until now limit)
  pub record_failure :
      (event_id : ℕ) (message : _) (next : ℕ)
      → Preserves Holds (record_failure_statement event_id message next)
  pub insert_log :
      (event : AuditEvent) (t : Tables)
      → Known event
      → Holds t
      → Holds (record t { audit_logs = t.audit_logs ++ event ∷ [] })
  pub mark_delivered :
      (event_id at : ℕ) (t : Tables)
      → Holds t
      → HasLog event_id t
      → Holds (mark_delivered_statement event_id at t).1
  pub cleanup : (now age : ℕ) → Preserves Holds (cleanup_statement now age)
