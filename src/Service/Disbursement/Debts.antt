-- ===== src/Service/Disbursement/Debts.antt =====
-- internal/service/disbursement/service.go: the statements of its transactions, and the audit events that
-- they make due or write.
use disbursment_api.Base.{
  ℕ, ◌≡◌, refl, Bool, true, ◌||◌, ◌⊎◌, ltb, length, none, [], ◌∷◌, ◌++◌, ◌∙◌, find, arith,
  Bool-cases, Option-cases, inl, inr, is_some,
}
use disbursment_api.Base.Parts.{is_some-find-append}
use disbursment_api.Base.Text.{Text, text_eq-same}
use disbursment_api.Failure.{Cause, postgres}
use disbursment_api.Domain.Audit.{AuditEvent}
use disbursment_api.Domain.Disbursement.{Disbursement, Decision, pending}
use disbursment_api.Repository.Tables.{DbDisbursement, Tables}
use disbursment_api.Repository.World.{Sql, returned, failed}
use disbursment_api.Repository.World.Rules.{Condition}
use disbursment_api.Repository.Disbursements.{
  is_open, has_id, insert_statement, to_row, update_open, update_status_statement,
  soft_delete_statement, decide_row, delete_row, broken_constraint, insert_error, decodes,
  user_exists,
}
use disbursment_api.Repository.Disbursements.Statements.{find-passes}
use disbursment_api.Repository.Outbox.{is_event, insert_event_statement, outbox_row}
use disbursment_api.Service.Disbursement.{created_action, deleted_action, decision_action}
use disbursment_api.Service.Disbursement.Trail.{
  tells, has_event, with_owed, audited_row, owed, Side, Kept, KeptOnce, All-mono, All-append,
  All-update_open, decide_row-audited, delete_row-audited,
}

has_event-insert_event :
    (event : AuditEvent) (now : ℕ) (t : Tables) (id : ℕ) (action : Text)
    → has_event (record t { audit_outbox = t.audit_outbox ++ outbox_row event now ∷ [] }) id action
      ≡ (has_event t id action || tells id action event)
unfolding outbox_row
has_event-insert_event event now t id action = ground (
  arith,
  is_some-find-append (λ row. tells id action row.event) t.audit_outbox (outbox_row event now),
)

insert_event-cases :
    (event : AuditEvent) (now : ℕ) (t : Tables)
    → ((cause : Cause) × (insert_event_statement event now t ≡ (failed cause, t)))
      ⊎ (insert_event_statement event now t
          ≡ (returned tt, record t { audit_outbox = t.audit_outbox ++ outbox_row event now ∷ [] }))
unfolding insert_event_statement
insert_event-cases event now t =
    elim (Bool-cases (is_some (find (is_event event.event_id) t.audit_outbox))) [
      | inl known ↦ inl (postgres "23505", rw known refl)
      | inr fresh ↦
          elim (Bool-cases (ltb 64 (length event.entity_type) || ltb 64 (length event.action))) [
            | inl long ↦ inl (postgres "22001", rw (fresh, long) refl)
            | inr short ↦ elim (Bool-cases (user_exists event.actor_id t.users)) [
              | inl actor ↦ inr (rw (fresh, short, actor) refl)
              | inr stranger ↦ inl (postgres "23503", rw (fresh, short, stranger) refl)
            ]
          ]
    ]

new_row-audited :
    (d : Disbursement) (events : ℕ → Text → Bool)
    → d.status ≡ pending
    → d.deleted_at ≡ none
    → audited_row (λ i a. events i a || owed d.id created_action i a) (to_row d) ≡ true
unfolding audited_row to_row
new_row-audited d events new live = ground (arith, text_eq-same created_action)

module _ (side : Side) where
  -- Once the owed event is in the outbox, nothing is owed.
  abbrev pub Owing : ℕ → Text → Condition
  Owing id action c v = Kept side c × KeptOnce side id action v

  -- What an answer on an event's insertion means for the trail.
  abbrev pub Pays : Sql (Unit {0}) → Tables → Type 0
  Pays (returned u) t = Kept side t
  Pays (failed cause) t = Unit

  pub insert_event-Pays :
      (event : AuditEvent) (now id : ℕ) (action : Text) (t : Tables)
      → event.entity_id ≡ id
      → event.action ≡ action
      → side.Names event.event_id id action
      → KeptOnce side id action t
      → let (r, t') = insert_event_statement event now t in Pays r t'
  insert_event-Pays event now id action t same_id same_action named h =
      let paid =
        All-mono (with_owed t id action)
          (has_event (record t { audit_outbox = t.audit_outbox ++ outbox_row event now ∷ [] }))
          t.disbursements
          (λ i a due. has_event-insert_event event now t i a ∙ (rw (same_id, same_action) due))
          h.0 in
      elim (insert_event-cases event now t) [
        | inl (cause, broken) ↦ rw broken tt
        | inr inserted ↦ rw inserted (
          paid,
          side.insertion event now t.audit_outbox t.audit_logs (rw (same_id, same_action) named)
              h.1,
        )
      ]

  -- A new pending row owes the event of its creation.
  abbrev pub Creates : ℕ → Sql (Unit {0}) → Tables → Type 0
  Creates id (returned u) t = KeptOnce side id created_action t
  Creates id (failed cause) t = Unit

  pub insert-Creates :
      (d : Disbursement) (t : Tables)
      → d.status ≡ pending
      → d.deleted_at ≡ none
      → Kept side t
      → let (r, t') = insert_statement (to_row d) t in Creates d.id r t'
  unfolding insert_statement
  insert-Creates d t new live h =
      let old =
        All-mono (has_event t) (with_owed t d.id created_action) t.disbursements
          (λ i a e. ground arith) h.0 in
      let rows =
        All-append (with_owed t d.id created_action) t.disbursements (to_row d) old
          (new_row-audited d (has_event t) new live) in
      elim (Option-cases (insert_error t.users (to_row d))) [
        | inl fits ↦ elim (Bool-cases (is_some (find (has_id (to_row d).id) t.disbursements))) [
          | inl taken ↦ rw (fits, taken) tt
          | inr free ↦ rw (fits, free) (rows, h.1)
        ]
        | inr (cause, broken) ↦ rw broken tt
      ]

  -- An UPDATE of an open row owes the event of its action.
  abbrev pub Updates : ℕ → Text → Sql DbDisbursement → Tables → Type 0
  Updates id action (returned row) t = (row.id ≡ id) × KeptOnce side id action t
  Updates id action (failed cause) t = Kept side t

  update_open-Updates :
      (id : ℕ) (change : DbDisbursement → DbDisbursement) (action : Text) (t : Tables)
      → ((row : DbDisbursement)
          → is_open id row ≡ true
          → audited_row (has_event t) row ≡ true
          → audited_row (λ i a. has_event t i a || owed id action i a) (change row) ≡ true)
      → ((row : DbDisbursement) → (change row).id ≡ row.id)
      → Kept side t
      → let (r, t') = update_open id change t in Updates id action r t'
  unfolding update_open
  update_open-Updates id change action t pays same h =
      let rows =
        All-update_open (has_event t) (with_owed t id action) id change t.disbursements
          (λ i a e. ground arith) pays h.0 in
      elim (Option-cases (find (is_open id) t.disbursements)) [
        | inl missing ↦ rw missing h
        | inr (row, found) ↦
            let yes_open = find-passes (is_open id) t.disbursements row found in
            elim (Option-cases (broken_constraint t.users (change row))) [
              | inl fits ↦ rw (found, fits) (same row ∙ (ground arith), (rows, h.1))
              | inr (cause, broken) ↦ rw (found, broken) h
            ]
      ]

  pub update_status-Updates :
      (id : ℕ) (decision : Decision) (now : ℕ) (t : Tables)
      → Kept side t
      → let (r, t') = update_status_statement id decision now t in
        Updates id (decision_action decision.status) r t'
  unfolding update_status_statement
  update_status-Updates id decision now t h =
      let done =
        update_open-Updates id (decide_row decision now) (decision_action decision.status) t
          (λ row o a. decide_row-audited (has_event t) id row o a decision now) (λ row. refl) h in
      elim (Bool-cases (decodes decision)) [ inl known ↦ rw known done | inr other ↦ rw other h ]

  pub soft_delete-Updates :
      (id : ℕ) (now : ℕ) (t : Tables)
      → Kept side t
      → let (r, t') = soft_delete_statement id now t in Updates id deleted_action r t'
  unfolding soft_delete_statement
  soft_delete-Updates id now t h =
      update_open-Updates id (delete_row now) deleted_action t
        (λ row o a. delete_row-audited (has_event t) id row o a now) (λ row. refl) h
