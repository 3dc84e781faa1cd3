-- ===== src/Service/Disbursement/Trail.antt =====
-- internal/service/disbursement/service.go: the audit trail of the disbursements in the tables, and what
-- single statements of the stores do to it. An event of the trail waits in the outbox or is in the log.
use disbursment_api.Base.{
  ℕ, ◌≡◌, Bool, true, not, ◌&&◌, ◌||◌, List, [], ◌∷◌, ◌++◌, find, update_where, All, arith,
  Bool-cases, inl, inr, is_some, ◌==◌,
}
use disbursment_api.Base.Text.{Text, text_eq, text_eq-same}
use disbursment_api.Domain.Audit.{AuditEvent}
use disbursment_api.Domain.Disbursement.{Decision, is_pending}
use disbursment_api.Repository.Outbox.{outbox_row}
use disbursment_api.Repository.Tables.{DbDisbursement, OutboxRow, Tables}
use disbursment_api.Repository.Disbursements.{is_open, decide_row, delete_row}
use disbursment_api.Service.Disbursement.{created_action, deleted_action, decision_action}

-- Whether an event tells of an action on an entity.
abbrev pub tells : ℕ → Text → AuditEvent → Bool
tells id action event = event.entity_id == id && text_eq event.action action

abbrev pub has_event : Tables → ℕ → Text → Bool
has_event t id action =
    is_some (find (λ row. tells id action row.event) t.audit_outbox)
    || is_some (find (tells id action) t.audit_logs)

-- Given which events there are: a row has the event of its creation, that of its decision if it is
-- decided, and that of its deletion if it is deleted.
unfoldable pub audited_row : (ℕ → Text → Bool) → DbDisbursement → Bool
audited_row events row =
    events row.id created_action
    && ((is_pending row.status || events row.id (decision_action row.status))
        && (not (is_some row.deleted_at) || events row.id deleted_action))

-- An event that is still to be written.
abbrev pub owed : ℕ → Text → ℕ → Text → Bool
owed owed_id owed_action id action = owed_id == id && text_eq owed_action action

abbrev pub with_owed : Tables → ℕ → Text → ℕ → Text → Bool
with_owed t owed_id owed_action id action =
    has_event t id action || owed owed_id owed_action id action

-- The rows are audited once an owed event is written; and all of them are.
abbrev pub AuditedOnce : ℕ → Text → Tables → Type 0
AuditedOnce id action t =
    All (λ row. audited_row (with_owed t id action) row ≡ true) t.disbursements

abbrev pub Audited : Tables → Type 0
Audited t = All (λ row. audited_row (has_event t) row ≡ true) t.disbursements

-- What else is kept of the outbox and the log, where the id of an event names what it tells of.
pub record Side : Type 1 where
  pub Holds : List OutboxRow → List AuditEvent → Type 0
  pub Names : ℕ → ℕ → Text → Type 0
  pub insertion :
      (event : AuditEvent) (now : ℕ) (rows : List OutboxRow) (logs : List AuditEvent)
      → Names event.event_id event.entity_id event.action
      → Holds rows logs
      → Holds (rows ++ outbox_row event now ∷ []) logs

abbrev pub Kept : Side → Tables → Type 0
Kept side t = Audited t × side.Holds t.audit_outbox t.audit_logs

abbrev pub KeptOnce : Side → ℕ → Text → Tables → Type 0
KeptOnce side id action t = AuditedOnce id action t × side.Holds t.audit_outbox t.audit_logs

-- Nothing but the trail.
abbrev pub no_side : Side
no_side = record {
  Holds = λ rows logs. Unit;
  Names = λ event_id id action. Unit;
  insertion = λ event now rows logs named h. tt;
}

audited_row_mono :
    (before after : ℕ → Text → Bool) (row : DbDisbursement)
    → ((id : ℕ) (action : Text) → before id action ≡ true → after id action ≡ true)
    → audited_row before row ≡ true
    → audited_row after row ≡ true
unfolding audited_row
audited_row_mono before after row more h = ground (
  arith,
  more row.id created_action,
  more row.id (decision_action row.status),
  more row.id deleted_action,
)

pub All-mono :
    (before after : ℕ → Text → Bool) (rows : List DbDisbursement)
    → ((id : ℕ) (action : Text) → before id action ≡ true → after id action ≡ true)
    → All (λ row. audited_row before row ≡ true) rows
    → All (λ row. audited_row after row ≡ true) rows
All-mono before after [] more h = tt
All-mono before after (row ∷ rows) more h =
    (audited_row_mono before after row more h.0, All-mono before after rows more h.1)

pub All-append :
    (events : ℕ → Text → Bool) (rows : List DbDisbursement) (row : DbDisbursement)
    → All (λ r. audited_row events r ≡ true) rows
    → audited_row events row ≡ true
    → All (λ r. audited_row events r ≡ true) (rows ++ row ∷ [])
All-append events [] row h new = (new, tt)
All-append events (r ∷ rows) row h new = (h.0, All-append events rows row h.1 new)

-- An UPDATE of the open row under an id that makes at most one event due.
pub All-update_open :
    (events after : ℕ → Text → Bool) (id : ℕ) (change : DbDisbursement → DbDisbursement)
    (rows : List DbDisbursement)
    → ((i : ℕ) (action : Text) → events i action ≡ true → after i action ≡ true)
    → ((row : DbDisbursement)
        → is_open id row ≡ true
        → audited_row events row ≡ true
        → audited_row after (change row) ≡ true)
    → All (λ r. audited_row events r ≡ true) rows
    → All (λ r. audited_row after r ≡ true) (update_where (is_open id) change rows)
All-update_open events after id change [] more pays h = tt
All-update_open events after id change (row ∷ rows) more pays h =
    let rest = All-update_open events after id change rows more pays h.1 in
    elim (Bool-cases (is_open id row)) [
      | inl yes_open ↦ (rw yes_open (pays row yes_open h.0), rest)
      | inr not_open ↦ (rw not_open (audited_row_mono events after row more h.0), rest)
    ]

module _ (events : ℕ → Text → Bool) (id : ℕ) (row : DbDisbursement)
    (open_row : is_open id row ≡ true) (h : audited_row events row ≡ true) where
  pub decide_row-audited :
      (decision : Decision) (now : ℕ)
      → audited_row
          (λ i a. events i a || owed id (decision_action decision.status) i a)
          (decide_row decision now row)
        ≡ true
  unfolding audited_row decide_row
  decide_row-audited decision now = ground (arith, text_eq-same (decision_action decision.status))

  pub delete_row-audited :
      (now : ℕ)
      → audited_row (λ i a. events i a || owed id deleted_action i a) (delete_row now row) ≡ true
  unfolding audited_row delete_row
  delete_row-audited now = ground (arith, text_eq-same deleted_action)
