-- ===== src/Service/Disbursement/Deciding.antt =====
-- internal/service/disbursement/service.go: `UpdateStatus` and the audit trail, through all its branches.
use disbursment_api.Base.{ℕ, ◌≡◌, Option, Option-cases, inl, inr, find, is_some, ◌==◌, not, ◌&&◌}
use disbursment_api.Base.Text.{Text}
use disbursment_api.Failure.{no_rows, canceled, deadline_exceeded, postgres, plain, Failure}
use disbursment_api.Domain.Audit.{new_audit_event, Json}
use disbursment_api.Domain.Disbursement.{
  Disbursement, Decision, DisbursementStatus, pending, approved, rejected, other_status,
}
use disbursment_api.Repository.Tables.{DbDisbursement, Tables}
use disbursment_api.Repository.World.{Sql, returned, failed, Env}
use disbursment_api.Repository.World.Rules.{
  Condition, Triple, bind-Triple, pure-Triple, inspect_tx-Triple, conseq-Triple,
}
use disbursment_api.Repository.World.Handlers.{record_metric-Triple, catch-Triple}
use disbursment_api.Repository.World.Keeps.{
  Both, Keeps, KeepsOutside, Outside, Calm, Preserves, raise-Keeps, pure-Keeps, raise-KeepsOutside,
  pure-KeepsOutside, lift-KeepsOutside, inspect_pool-Keeps, within_transaction-Keeps,
}
use disbursment_api.Repository.Disbursements
use disbursment_api.Repository.Disbursements.{
  has_id, insert_statement, to_row, find_statement, find_raw_statement, found_or_error,
  update_status_statement, updated_or_refusal, refuse_update, soft_delete_statement,
  deleted_or_refusal, refuse_delete, delete_repeat, from_row,
}
use disbursment_api.Service.Disbursement.{
  Service, Readings, decision_action, store_decision, decision_failed, record_decision, decide,
  update_status,
}
use disbursment_api.Service.Disbursement.Events.{Announces, new_event-Triple, insert_event-Triple}
use disbursment_api.Service.Disbursement.Trail.{KeptOnce, Side, Kept}
use disbursment_api.Service.Disbursement.Debts.{Owing, Updates, update_status-Updates}

module _ (side : Side) (env : Env) where
  -- How the answer to the UPDATE of the status goes on.
  DecisionAnswer : ℕ → Text → Sql DbDisbursement → Condition
  DecisionAnswer id action (returned row) c v =
      Kept side c × ((row.id ≡ id) × KeptOnce side id action v)
  DecisionAnswer id action (failed cause) c v = Kept side c

  decision_answer :
      (id : ℕ) (action : Text) (r : Sql DbDisbursement) (c v : Tables)
      → Kept side c
      → Updates side id action r v
      → DecisionAnswer id action r c v
  unfolding DecisionAnswer
  decision_answer id action (returned row) c v hc hv = (hc, hv)
  decision_answer id action (failed cause) c v hc hv = hc

  pub find_raw-Preserves : (id : ℕ) → Preserves (Kept side) (find_raw_statement id)
  unfolding find_raw_statement
  find_raw-Preserves id t h = elim (Option-cases (find (has_id id) t.disbursements)) [
    | inl missing ↦ rw missing h
    | inr (row, found) ↦ rw found h
  ]

  pub find-Preserves : (id : ℕ) → Preserves (Kept side) (find_statement id)
  unfolding find_statement
  find-Preserves id t h =
      elim (Option-cases
        (find (λ row. row.id == id && not (is_some row.deleted_at)) t.disbursements)) [
          | inl missing ↦ rw missing h
          | inr (row, found) ↦ rw found h
        ]

  found_or_error-Keeps : (r : Sql DbDisbursement) → Keeps env (Kept side) (found_or_error r)
  found_or_error-Keeps (returned row) = pure-Keeps env (Kept side) _
  found_or_error-Keeps (failed no_rows) = raise-Keeps env (Kept side) _
  found_or_error-Keeps (failed canceled) = raise-Keeps env (Kept side) _
  found_or_error-Keeps (failed deadline_exceeded) = raise-Keeps env (Kept side) _
  found_or_error-Keeps (failed (postgres s)) = raise-Keeps env (Kept side) _
  found_or_error-Keeps (failed (plain s)) = raise-Keeps env (Kept side) _

  pub find_by_id-Keeps :
      Calm env (Kept side)
      → (id : ℕ)
      → Triple env
          (Kept side)
          (Outside (Kept side))
          (Disbursements.find_by_id id)
          (λ _. Both (Kept side))
  unfolding Disbursements.find_by_id
  find_by_id-Keeps calm id =
      inspect_pool-Keeps env (Kept side) calm _ _ (find-Preserves id) found_or_error-Keeps

  -- A refusal leaves the committed tables alone.
  refuse_update-Triple :
      {Q : Disbursement → Condition} (r : Sql DbDisbursement)
      → Triple env (Kept side) (Outside (Kept side)) (refuse_update r) Q
  refuse_update-Triple (returned existing) = record { run = λ w p. p }
  refuse_update-Triple (failed no_rows) = record { run = λ w p. p }
  refuse_update-Triple (failed canceled) = record { run = λ w p. p }
  refuse_update-Triple (failed deadline_exceeded) = record { run = λ w p. p }
  refuse_update-Triple (failed (postgres s)) = record { run = λ w p. p }
  refuse_update-Triple (failed (plain s)) = record { run = λ w p. p }

  -- An updated row owes the event of its decision.
  OwesDecision : ℕ → Text → Disbursement → Condition
  OwesDecision id action d c v = (d.id ≡ id) × Owing side id action c v

  updated_or_refusal-Triple :
      (id : ℕ) (action : Text) (r : Sql DbDisbursement)
      → Triple env
          (Kept side)
          (DecisionAnswer id action r)
          (updated_or_refusal id r)
          (OwesDecision id action)
  unfolding DecisionAnswer OwesDecision from_row
  updated_or_refusal-Triple id action (returned row) = pure-Triple (λ c v p. (p.1.0, (p.0, p.1.1)))
  updated_or_refusal-Triple id action (failed no_rows) =
      inspect_tx-Triple (λ r c v. Kept side c) (λ c v p. p) (λ f c v p. (p, p)) refuse_update-Triple
  updated_or_refusal-Triple id action (failed canceled) = record { run = λ w p. p }
  updated_or_refusal-Triple id action (failed deadline_exceeded) = record { run = λ w p. p }
  updated_or_refusal-Triple id action (failed (postgres s)) = record { run = λ w p. p }
  updated_or_refusal-Triple id action (failed (plain s)) = record { run = λ w p. p }

  update_status-Triple :
      (id : ℕ) (decision : Decision) (now : ℕ)
      → Triple env
          (Kept side)
          (Both (Kept side))
          (Disbursements.update_status id decision now)
          (OwesDecision id (decision_action decision.status))
  unfolding Disbursements.update_status DecisionAnswer
  update_status-Triple id decision now =
      inspect_tx-Triple (DecisionAnswer id (decision_action decision.status))
        (λ c v p. decision_answer id _ _ c _ p.0 (update_status-Updates side id decision now v p.1))
        (λ f c v p. (p.0, p.0)) (updated_or_refusal-Triple id (decision_action decision.status))

  new_decision_event-Triple :
      (event_id : ℕ) (entity_type : Text) (id : ℕ) (action : Text) (actor_id request_id : ℕ)
      (before after : Option Json) (occurred_at : ℕ) (d : Disbursement)
      → side.Names event_id id action
      → Triple env
          (Kept side)
          (OwesDecision id action d)
          (λ _ w. (
            new_audit_event event_id entity_type d.id action actor_id request_id before after
                occurred_at,
            w,
          ))
          (Announces side id action)
  unfolding OwesDecision
  new_decision_event-Triple event_id entity_type id action actor_id request_id before after
        occurred_at d named =
      record {
        run = λ w p. rw p.0 (
            (new_event-Triple side env event_id entity_type id action actor_id request_id before
                after occurred_at named).run
              w p.1);
      }

  store_decision-Keeps :
      Calm env (Kept side)
      → (s : Service) (readings : Readings) (actor_id request_id id : ℕ) (decision : Decision)
      → side.Names readings.event_id id (decision_action decision.status)
      → Keeps env (Kept side) (store_decision s readings actor_id request_id id decision)
  unfolding store_decision
  store_decision-Keeps calm s readings actor_id request_id id decision named =
      bind-Triple (conseq-Triple (find_by_id-Keeps calm id) (λ c v p. p.0) (λ a c v p. p))
        (λ before. bind-Triple (update_status-Triple id decision readings.store_now) (λ updated.
          bind-Triple (new_decision_event-Triple _ _ id _ _ _ _ _ _ updated named) (λ event.
            bind-Triple (insert_event-Triple side env event readings.server_now id _)
              (λ u. pure-Keeps env (Kept side) updated))))

  decision_failed-KeepsOutside :
      (s : Service) (e : Failure) → KeepsOutside env (Kept side) (decision_failed s e)
  decision_failed-KeepsOutside s e =
      bind-Triple (record_metric-Triple _ _) (λ u. raise-KeepsOutside env (Kept side) _)

  record_decision-KeepsOutside :
      (s : Service) (status : DisbursementStatus)
      → KeepsOutside env (Kept side) (record_decision s status)
  record_decision-KeepsOutside s approved = record_metric-Triple _ _
  record_decision-KeepsOutside s rejected = record_metric-Triple _ _
  record_decision-KeepsOutside s pending = pure-KeepsOutside env (Kept side) tt
  record_decision-KeepsOutside s (other_status t) = pure-KeepsOutside env (Kept side) tt

  module _ (calm : Calm env (Kept side)) where
    pub update_status-KeepsOutside :
        (s : Service) (readings : Readings) (actor_id request_id id : ℕ) (decision : Decision)
        → side.Names readings.event_id id (decision_action decision.status)
        → KeepsOutside env (Kept side) (update_status s readings actor_id request_id id decision)
    unfolding update_status decide
    update_status-KeepsOutside s readings actor_id request_id id decision named =
        bind-Triple (lift-KeepsOutside env (Kept side) _) (λ u.
          bind-Triple
            (catch-Triple _
              (within_transaction-Keeps env (Kept side) calm _
                (store_decision-Keeps calm s readings actor_id request_id id _ named))
              _ (decision_failed-KeepsOutside s))
            (λ updated.
              bind-Triple (record_decision-KeepsOutside s decision.status)
                (λ u. pure-KeepsOutside env (Kept side) updated)))
