-- ===== src/Service/Disbursement/Events.antt =====
-- internal/service/disbursement/service.go: rules for the steps of its transactions that make an audit
-- event, write it, or insert the disbursement that owes one.
use disbursment_api.Base.{ℕ, ◌≡◌, Option, none, arith, Bool-cases, inl, inr}
use disbursment_api.Base.Text.{Text}
use disbursment_api.Failure.{ok}
use disbursment_api.Domain.Audit.{AuditEvent, new_audit_event, Json}
use disbursment_api.Domain.Disbursement.{Disbursement, pending}
use disbursment_api.Repository.Tables.{Tables}
use disbursment_api.Repository.World.{Sql, returned, failed, Env}
use disbursment_api.Repository.World.Rules.{
  Condition, Triple, Answered, lift-Triple, exec_tx-Triple,
}
use disbursment_api.Repository.World.Keeps.{Both}
use disbursment_api.Repository.Disbursements
use disbursment_api.Repository.Disbursements.{
  insert_statement, to_row, find_statement, find_raw_statement, found_or_error,
  update_status_statement, updated_or_refusal, refuse_update, soft_delete_statement,
  deleted_or_refusal, refuse_delete, delete_repeat, from_row,
}
use disbursment_api.Repository.Outbox
use disbursment_api.Repository.Outbox.{event_invalid, insert_event_statement}
use disbursment_api.Service.Disbursement.{created_action}
use disbursment_api.Service.Disbursement.Trail.{Side, Kept}
use disbursment_api.Service.Disbursement.Debts.{
  Owing, Pays, insert_event-Pays, Creates, insert-Creates,
}

-- What an event that has been made says.
unfoldable pub Announces : Side → ℕ → Text → AuditEvent → Condition
Announces side id action event c v =
    Owing side id action c v
    × ((event.entity_id ≡ id) × ((event.action ≡ action) × side.Names event.event_id id action))

new_audit_event-says :
    (event_id : ℕ) (entity_type : Text) (id : ℕ) (action : Text) (actor_id request_id : ℕ)
    (before after : Option Json) (occurred_at : ℕ) (event : AuditEvent)
    → new_audit_event event_id entity_type id action actor_id request_id before after occurred_at
      ≡ ok event
    → (event.event_id ≡ event_id) × ((event.entity_id ≡ id) × (event.action ≡ action))
unfolding new_audit_event
new_audit_event-says event_id entity_type id action actor_id request_id before after occurred_at
      event h =
    ground arith

module _ (side : Side) (env : Env) where
  pub new_event-Triple :
      (event_id : ℕ) (entity_type : Text) (id : ℕ) (action : Text) (actor_id request_id : ℕ)
      (before after : Option Json) (occurred_at : ℕ)
      → side.Names event_id id action
      → Triple env
          (Kept side)
          (Owing side id action)
          (λ _ w. (
            new_audit_event event_id entity_type id action actor_id request_id before after
                occurred_at,
            w,
          ))
          (Announces side id action)
  unfolding Announces
  new_event-Triple event_id entity_type id action actor_id request_id before after occurred_at
        named =
      lift-Triple _ (λ c v p. p.0)
        (λ event c v made p.
          let (same_id, says) =
            new_audit_event-says event_id entity_type id action actor_id request_id before after
              occurred_at event made in
          (p, (says.0, (says.1, rw same_id named))))

  paid_answer :
      (r : Sql (Unit {0})) (c v : Tables)
      → Kept side c
      → Pays side r v
      → Answered (Kept side) (λ _. Both (Kept side)) r c v
  paid_answer (returned u) c v hc hv = (hc, hv)
  paid_answer (failed e) c v hc hv = hc

  -- The owed event goes to the outbox.
  pub insert_event-Triple :
      (event : AuditEvent) (now id : ℕ) (action : Text)
      → Triple env
          (Kept side)
          (Announces side id action event)
          (Outbox.insert event now)
          (λ _. Both (Kept side))
  unfolding Announces Outbox.insert
  insert_event-Triple event now id action = elim (Bool-cases (event_invalid event)) [
    | inl invalid ↦ rw invalid (record { run = λ w p. p.0.0 })
    | inr valid ↦ rw valid (
        exec_tx-Triple (insert_event_statement event now) (λ c v p. p.0.0)
          (λ c v p.
            paid_answer _ c _ p.0.0
              (insert_event-Pays side event now id action v p.1.0 p.1.1.0 p.1.1.1 p.0.1)))
  ]

  created_answer :
      (id : ℕ) (r : Sql (Unit {0})) (c v : Tables)
      → Kept side c
      → Creates side id r v
      → Answered (Kept side) (λ _. Owing side id created_action) r c v
  created_answer id (returned u) c v hc hv = (hc, hv)
  created_answer id (failed e) c v hc hv = hc

  pub insert-Triple :
      (d : Disbursement)
      → d.status ≡ pending
      → d.deleted_at ≡ none
      → Triple env
          (Kept side)
          (Both (Kept side))
          (Disbursements.insert d)
          (λ _. Owing side d.id created_action)
  unfolding Disbursements.insert
  insert-Triple d new live =
      exec_tx-Triple (insert_statement (to_row d)) (λ c v p. p.0)
        (λ c v p. created_answer d.id _ c _ p.0 (insert-Creates side d v new live p.1))
