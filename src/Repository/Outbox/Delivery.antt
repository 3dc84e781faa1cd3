-- ===== src/Repository/Outbox/Delivery.antt =====
-- internal/repository/postgres/outbox.go: the leases of fetched events, and the log behind the outbox.
use disbursment_api.Base.{
  ℕ, ◌<◌, ◌≡◌, inl, inr, Bool, true, false, List, [], ◌∷◌, map, keep, All, arith, Bool-cases, ◌==◌,
  not, find, is_some,
}
use Prim.Native.String.{String}
use disbursment_api.Base.Parts.{All-join, All-update_where, All-keep}
use disbursment_api.Domain.Audit.{AuditEvent}
use disbursment_api.Repository.Tables.{OutboxRow, Tables}
use disbursment_api.Repository.World.{Sql, returned, failed}
use disbursment_api.Repository.Outbox.{
  chosen_ids, is_in, chosen, is_log, is_stale, is_pending_event, outbox_row, deliver_row,
  failure_row, insert_event_statement, fetch_statement, insert_log_statement,
  mark_delivered_statement, record_failure_statement, cleanup_statement,
}
use disbursment_api.Repository.Outbox.Waiting.{
  Waits, in-Avoids, Avoids-Waits, chosen_ids-not_in, fetched-Waits, pending-Avoids,
}

-- One statement of some session on the outbox or the log behind it. The log's is here since the relay
-- runs it between a fetch and its mark.
pub data OutboxStatement : Type 0 where
  insert_event : AuditEvent → ℕ → OutboxStatement
  fetch : (ℕ → Bool) → ℕ → ℕ → ℕ → OutboxStatement
  insert_log : AuditEvent → OutboxStatement
  mark_delivered : ℕ → ℕ → OutboxStatement
  record_failure : ℕ → String → ℕ → OutboxStatement
  cleanup : ℕ → ℕ → OutboxStatement

unfoldable pub run_one : OutboxStatement → Tables → Tables
run_one (insert_event event now) t = (insert_event_statement event now t).1
run_one (fetch locked lease_until now limit) t = (fetch_statement locked lease_until now limit t).1
run_one (insert_log event) t = (insert_log_statement event t).1
run_one (mark_delivered id at) t = (mark_delivered_statement id at t).1
run_one (record_failure id message next) t = (record_failure_statement id message next t).1
run_one (cleanup now age) t = (cleanup_statement now age t).1

unfoldable pub run_all : List OutboxStatement → Tables → Tables
run_all [] t = t
run_all (s ∷ ss) t = run_all ss (run_one s t)

-- A statement that does not insert the event with the id, nor records a failure of it, and that reads a
-- time before the end of a lease if it fetches.
abbrev pub Respects : ℕ → ℕ → OutboxStatement → Type 0
Respects id lease_until (insert_event event now) = (event.event_id == id) ≡ false
Respects id lease_until (fetch locked until now limit) = now < lease_until
Respects id lease_until (record_failure failed_id message next) = (failed_id == id) ≡ false
Respects id lease_until _ = Unit

-- Whether an answer has the event with the id.
unfoldable pub hands_out : ℕ → Sql (List AuditEvent) → Bool
hands_out id (returned events) = is_some (find (is_log id) events)
hands_out id (failed cause) = false

hands_out-is_in :
    (id : ℕ) (ids : List ℕ) (rows : List OutboxRow)
    → hands_out id (returned (map (λ row. row.event) (keep (chosen ids) rows))) ≡ true
    → is_in id ids ≡ true
unfolding hands_out
hands_out-is_in id ids [] h = absurd (cc h)
hands_out-is_in id ids (row ∷ rows) h = elim (Bool-cases (is_in row.event.event_id ids)) [
  | inr out ↦ hands_out-is_in id ids rows (ground (arith, h, out))
  | inl chosen_row ↦ elim (Bool-cases (row.event.event_id == id)) [
    | inl same ↦
        let e : row.event.event_id ≡ id = ground (arith, same) in ground (arith, chosen_row, e)
    | inr apart ↦ hands_out-is_in id ids rows (ground (arith, h, chosen_row, apart))
  ]
]

module _ (id lease_until : ℕ) where
  Holds : Tables → Type 0
  Holds t = All (Waits id lease_until) t.audit_outbox

  insert_event-Holds :
      (event : AuditEvent) (now : ℕ) (t : Tables)
      → (event.event_id == id) ≡ false
      → Holds t
      → Holds (insert_event_statement event now t).1
  unfolding Holds insert_event_statement outbox_row
  insert_event-Holds event now t other h =
      let new = Avoids-Waits id lease_until (outbox_row event now) other in
      let longer =
        All-join (Waits id lease_until) t.audit_outbox (outbox_row event now ∷ []) h (new, tt) in
      ground (arith, longer)

  fetch-Holds :
      (locked : ℕ → Bool) (until now limit : ℕ) (t : Tables)
      → now < lease_until
      → Holds t
      → Holds (fetch_statement locked until now limit t).1
  unfolding Holds fetch_statement
  fetch-Holds locked until now limit t early h =
      let ids = chosen_ids locked now limit t.audit_outbox in
      let out = chosen_ids-not_in id lease_until now limit locked t.audit_outbox early h in
      All-update_where (Waits id lease_until) (chosen ids) _ t.audit_outbox
        (λ row waits leased.
          Avoids-Waits id lease_until (record row { available_at = until })
            (in-Avoids id row ids out leased))
        h

  mark_delivered-Holds :
      (event_id at : ℕ) (t : Tables) → Holds t → Holds (mark_delivered_statement event_id at t).1
  unfolding Holds mark_delivered_statement deliver_row
  mark_delivered-Holds event_id at t h =
      All-update_where (Waits id lease_until) (is_pending_event event_id) (deliver_row at)
        t.audit_outbox (λ row waits own. ground arith) h

  record_failure-Holds :
      (event_id : ℕ) (message : String) (next : ℕ) (t : Tables)
      → (event_id == id) ≡ false
      → Holds t
      → Holds (record_failure_statement event_id message next t).1
  unfolding Holds record_failure_statement failure_row
  record_failure-Holds event_id message next t other h =
      All-update_where (Waits id lease_until) (is_pending_event event_id) (failure_row message next)
        t.audit_outbox
        (λ row waits own.
          Avoids-Waits id lease_until (failure_row message next row)
            (pending-Avoids id event_id row other own))
        h

  run_one-Holds :
      (s : OutboxStatement) (t : Tables) → Respects id lease_until s → Holds t → Holds (run_one s t)
  unfolding run_one Holds insert_log_statement cleanup_statement
  run_one-Holds (insert_event event now) t other h = insert_event-Holds event now t other h
  run_one-Holds (fetch locked until now limit) t early h =
      fetch-Holds locked until now limit t early h
  run_one-Holds (insert_log event) t respects h = ground (arith, h)
  run_one-Holds (mark_delivered event_id at) t respects h = mark_delivered-Holds event_id at t h
  run_one-Holds (record_failure event_id message next) t other h =
      record_failure-Holds event_id message next t other h
  run_one-Holds (cleanup now age) t respects h =
      All-keep (Waits id lease_until) (λ row. not (is_stale now age row)) t.audit_outbox h

  run_all-Holds :
      (ss : List OutboxStatement) (t : Tables)
      → All (Respects id lease_until) ss
      → Holds t
      → Holds (run_all ss t)
  unfolding run_all
  run_all-Holds [] t respects h = h
  run_all-Holds (s ∷ ss) t respects h =
      run_all-Holds ss (run_one s t) respects.1 (run_one-Holds s t respects.0 h)

  Holds-not_handed_out :
      (locked : ℕ → Bool) (until now limit : ℕ) (t : Tables)
      → now < lease_until
      → Holds t
      → hands_out id (fetch_statement locked until now limit t).0 ≡ false
  unfolding Holds fetch_statement
  Holds-not_handed_out locked until now limit t early h =
      let ids = chosen_ids locked now limit t.audit_outbox in
      let out = chosen_ids-not_in id lease_until now limit locked t.audit_outbox early h in
      elim (Bool-cases (hands_out id (fetch_statement locked until now limit t).0)) [
        | inr kept ↦ kept
        | inl handed ↦ absurd (cc (out, hands_out-is_in id ids t.audit_outbox handed))
      ]

-- When a fetch has returned an event, no fetch of any session that reads a time before the lease of the
-- first ends returns it again, whatever rows are locked then and whatever statements of any sessions on
-- the outbox come between, as long as these record no failure of this event, insert no other with its id,
-- and fetch only before the lease ends.
pub fetch_statement-leased :
    (id : ℕ) (locked locked' : ℕ → Bool) (lease_until now limit lease_until' later limit' : ℕ)
    (t : Tables) (between : List OutboxStatement)
    → hands_out id (fetch_statement locked lease_until now limit t).0 ≡ true
    → All (Respects id lease_until) between
    → later < lease_until
    → let left = run_all between (fetch_statement locked lease_until now limit t).1 in
      hands_out id (fetch_statement locked' lease_until' later limit' left).0 ≡ false
unfolding fetch_statement Holds
fetch_statement-leased id locked locked' lease_until now limit lease_until' later limit' t between
      handed respects early =
    let ids = chosen_ids locked now limit t.audit_outbox in
    let leased = hands_out-is_in id ids t.audit_outbox handed in
    let fetched = (fetch_statement locked lease_until now limit t).1 in
    Holds-not_handed_out id lease_until locked' lease_until' later limit' (run_all between fetched)
      early
      (run_all-Holds id lease_until between fetched respects
        (fetched-Waits id ids lease_until t.audit_outbox leased))
