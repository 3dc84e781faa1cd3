-- ===== src/Service/Relay.antt =====
-- internal/service/audit/relay.go: the relay that moves events from the outbox to the log. A batch may
-- end with a number of processed events and an error at once.
pub mod Logged
pub mod Traced
pub mod Ledger
pub mod Batches
pub mod Moving
pub mod Delivering
pub mod Worker
pub mod Lifecycle
use Prim.Native.String.{String}
use disbursment_api.Base.{
  ℕ, suc, ◌+◌, Bool, ◌&&◌, Option, none, some, List, [], ◌∷◌, length, if◌then◌else◌,
}
use disbursment_api.Base.Int.{ℤ, pos, leb_ℤ}
use disbursment_api.Failure.{Cause, Failure, raw, Result, ok, err}
use disbursment_api.Domain.Audit.{AuditEvent}
use disbursment_api.Repository.World.{
  Action, pure, raise, ◌>>=◌, ◌>>◌, attempt, ignore_error, record_metric, delivery_success,
  delivery_failure, backlog_depth, reconciliation_counts,
}
use disbursment_api.Repository.Outbox

-- `locked` are the rows that other sessions have locked when a batch is fetched, and `error_text` is an
-- error's message. The lease is that of the outbox store.
pub record Relay : Type 0 where
  pub collector : Bool
  pub lease : ℤ
  pub warning_age : ℤ
  pub critical_age : ℤ
  pub outbox_retention : ℤ
  pub locked : ℕ → Bool
  pub error_text : Failure → String

-- What the relay reads at the n-th event: its context's error, and its clock.
pub record Moment : Type 0 where
  pub context_error : Option Cause
  pub now : ℕ

abbrev pub retry_delay : ℕ
retry_delay = 5000000000

abbrev pub backed_off : Relay → Moment → AuditEvent → Failure → Action Bool
backed_off relay moment event e =
    record_metric relay.collector delivery_failure
    >> (ignore_error (
          Outbox.record_failure event.event_id (relay.error_text e) (moment.now + retry_delay)
            moment.now)
        >> pure Bool.false)

abbrev pub marked : Relay → Result (Unit {0}) → Action Bool
marked relay (ok u) = record_metric relay.collector delivery_success >> pure Bool.true
marked relay (err e) = record_metric relay.collector delivery_failure >> pure Bool.false

abbrev pub projected : Relay → Moment → AuditEvent → Result (Unit {0}) → Action Bool
projected relay moment event (ok u) =
    attempt (Outbox.mark_delivered event.event_id moment.now moment.now) (marked relay)
projected relay moment event (err e) = backed_off relay moment event e

-- One turn of the loop: whether the event has been processed.
unfoldable pub process_event : Relay → Moment → AuditEvent → Action Bool
process_event relay moment event =
    attempt (Outbox.insert_projection event) (projected relay moment event)

abbrev pub counted : Bool → ℕ → ℕ
counted processed n = if processed then suc n else n

-- A context that is done ends the batch before its next event.
abbrev pub unless_done :
    Option Cause → ℕ → Action (ℕ × Option Failure) → Action (ℕ × Option Failure)
unless_done (some cause) n rest = pure (n, some (raw cause))
unless_done none n rest = rest

unfoldable pub process_events :
    Relay → (ℕ → Moment) → ℕ → ℕ → List AuditEvent → Action (ℕ × Option Failure)
unfolding process_event
process_events relay moments turn n [] = pure (n, none)
process_events relay moments turn n (event ∷ events) = unless_done (moments turn).context_error n (
    process_event relay (moments turn) event >>= λ processed.
    process_events relay moments (suc turn) (counted processed n) events)

abbrev pub fetched : Relay → (ℕ → Moment) → Result (List AuditEvent) → Action (ℕ × Option Failure)
fetched relay moments (err e) = pure (0, some e)
fetched relay moments (ok events) =
    record_metric relay.collector (backlog_depth (length events))
    >> process_events relay moments 0 0 events

unfoldable pub process_batch : Relay → (ℕ → Moment) → ℕ → ℤ → Action (ℕ × Option Failure)
unfolding process_events
process_batch relay moments now batch_size =
    attempt
      (Outbox.fetch_pending relay.locked relay.lease now
        (if leb_ℤ batch_size (pos 0) then pos 50 else batch_size))
      (fetched relay moments)

-- `Reconcile`: the numbers of old and of very old pending events.
unfoldable pub reconcile : Relay → ℕ → Action (ℕ × ℕ)
reconcile relay now =
    Outbox.reconcile_pending relay.warning_age relay.critical_age now >>= λ counts.
    record_metric relay.collector (reconciliation_counts counts.0 counts.1) >> pure counts

-- `Cleanup`.
unfoldable pub cleanup : Relay → ℕ → Action ℕ
cleanup relay now = Outbox.cleanup_delivered relay.outbox_retention now
