-- ===== src/Service/Disbursement/Deleting.antt =====
-- internal/service/disbursement/service.go: `SoftDelete` and the audit trail, through all its branches.
use disbursment_api.Base.{ℕ, ◌≡◌, Bool, true, false, Bool-cases, inl, inr, is_some}
use disbursment_api.Failure.{no_rows, canceled, deadline_exceeded, postgres, plain, Failure, err}
use disbursment_api.Domain.Disbursement.{Disbursement, is_pending}
use disbursment_api.Repository.Tables.{DbDisbursement, Tables}
use disbursment_api.Repository.World.{
  Sql, returned, failed, Env, cause_of, Fault, catch, inspect_pool,
}
use disbursment_api.Repository.World.Rules.{
  Condition, Triple, bind-Triple, pure-Triple, inspect_tx-Triple,
}
use disbursment_api.Repository.World.Handlers.{mapping_error-Triple}
use disbursment_api.Repository.World.Keeps.{
  Both, Keeps, KeepsOutside, Calm, raise-Keeps, pure-Keeps, if-Keeps, inspect_pool-Keeps,
  within_transaction-Keeps,
}
use disbursment_api.Repository.Disbursements
use disbursment_api.Repository.Disbursements.{
  has_id, insert_statement, to_row, find_statement, find_raw_statement, found_or_error,
  update_status_statement, updated_or_refusal, refuse_update, soft_delete_statement,
  deleted_or_refusal, refuse_delete, delete_repeat, from_row,
}
use disbursment_api.Service.Disbursement.{
  Service, Readings, deleted_action, zero_if_missing, event_of_deletion, store_deletion,
  soft_delete, map_repository_error,
}
use disbursment_api.Service.Disbursement.Events.{new_event-Triple, insert_event-Triple}
use disbursment_api.Service.Disbursement.Deciding.{find_raw-Preserves, find-Preserves}
use disbursment_api.Service.Disbursement.Trail.{KeptOnce, Side, Kept}
use disbursment_api.Service.Disbursement.Debts.{Owing, Updates, soft_delete-Updates}

module _ (side : Side) (env : Env) where
  -- How the answer to the UPDATE of the deletion goes on: only a missing row is asked about.
  DeletionAnswer : ℕ → Sql DbDisbursement → Condition
  DeletionAnswer id (returned row) c v =
      Kept side c × ((row.id ≡ id) × KeptOnce side id deleted_action v)
  DeletionAnswer id (failed no_rows) c v = Both (Kept side) c v
  DeletionAnswer id (failed cause) c v = Kept side c

  deletion_answer :
      (id : ℕ) (r : Sql DbDisbursement) (c v : Tables)
      → Kept side c
      → Updates side id deleted_action r v
      → DeletionAnswer id r c v
  unfolding DeletionAnswer
  deletion_answer id (returned row) c v hc hv = (hc, hv)
  deletion_answer id (failed no_rows) c v hc hv = (hc, hv)
  deletion_answer id (failed canceled) c v hc hv = hc
  deletion_answer id (failed deadline_exceeded) c v hc hv = hc
  deletion_answer id (failed (postgres s)) c v hc hv = hc
  deletion_answer id (failed (plain s)) c v hc hv = hc

  lost_deletion_answer :
      (id : ℕ) (f : Fault) (c v : Tables)
      → Kept side c
      → DeletionAnswer id (failed (cause_of f)) c v
  unfolding DeletionAnswer
  lost_deletion_answer id Fault.context_canceled c v h = h
  lost_deletion_answer id Fault.context_deadline c v h = h
  lost_deletion_answer id (Fault.server_error s) c v h = h
  lost_deletion_answer id (Fault.connection_error s) c v h = h

  -- A deletion that is repeated owes nothing; a new one owes its event.
  OwesDeletion : ℕ → Disbursement × Bool → Condition
  OwesDeletion id (d, true) c v = Both (Kept side) c v
  OwesDeletion id (d, false) c v = (d.id ≡ id) × Owing side id deleted_action c v

  delete_repeat-Triple :
      (id : ℕ) (existing : DbDisbursement)
      → Triple env (Kept side) (Both (Kept side)) (delete_repeat existing) (OwesDeletion id)
  unfolding delete_repeat OwesDeletion
  delete_repeat-Triple id existing = elim (Bool-cases (is_some existing.deleted_at)) [
    | inl gone ↦ rw gone (record { run = λ w p. p })
    | inr live ↦ elim (Bool-cases (is_pending existing.status)) [
      | inl open_row ↦ rw (live, open_row) (record { run = λ w p. p.0 })
      | inr final ↦ rw (live, final) (record { run = λ w p. p.0 })
    ]
  ]

  refuse_delete-Triple :
      (id : ℕ) (r : Sql DbDisbursement)
      → Triple env (Kept side) (Both (Kept side)) (refuse_delete r) (OwesDeletion id)
  refuse_delete-Triple id (returned existing) = delete_repeat-Triple id existing
  refuse_delete-Triple id (failed no_rows) = record { run = λ w p. p.0 }
  refuse_delete-Triple id (failed canceled) = record { run = λ w p. p.0 }
  refuse_delete-Triple id (failed deadline_exceeded) = record { run = λ w p. p.0 }
  refuse_delete-Triple id (failed (postgres s)) = record { run = λ w p. p.0 }
  refuse_delete-Triple id (failed (plain s)) = record { run = λ w p. p.0 }

  deleted_or_refusal-Triple :
      (id : ℕ) (r : Sql DbDisbursement)
      → Triple env (Kept side) (DeletionAnswer id r) (deleted_or_refusal id r) (OwesDeletion id)
  unfolding DeletionAnswer OwesDeletion from_row
  deleted_or_refusal-Triple id (returned row) = pure-Triple (λ c v p. (p.1.0, (p.0, p.1.1)))
  deleted_or_refusal-Triple id (failed no_rows) =
      inspect_tx-Triple (λ r. Both (Kept side))
        (λ c v p. (p.0, find_raw-Preserves side env id v p.1))
        (λ f c v p. (p, (p.0, find_raw-Preserves side env id v p.1))) (refuse_delete-Triple id)
  deleted_or_refusal-Triple id (failed canceled) = record { run = λ w p. p }
  deleted_or_refusal-Triple id (failed deadline_exceeded) = record { run = λ w p. p }
  deleted_or_refusal-Triple id (failed (postgres s)) = record { run = λ w p. p }
  deleted_or_refusal-Triple id (failed (plain s)) = record { run = λ w p. p }

  soft_delete-Triple :
      (id now : ℕ)
      → Triple env
          (Kept side)
          (Both (Kept side))
          (Disbursements.soft_delete id now)
          (OwesDeletion id)
  unfolding Disbursements.soft_delete
  soft_delete-Triple id now =
      inspect_tx-Triple (DeletionAnswer id)
        (λ c v p. deletion_answer id _ c _ p.0 (soft_delete-Updates side id now v p.1))
        (λ f c v p. (lost_deletion_answer id f c _ p.0, lost_deletion_answer id f c _ p.0))
        (deleted_or_refusal-Triple id)

  zero_if_missing-Keeps : (e : Failure) → Keeps env (Kept side) (zero_if_missing e)
  zero_if_missing-Keeps e =
      if-Keeps env (Kept side) _ _ _ (pure-Keeps env (Kept side) _) (raise-Keeps env (Kept side) e)

  caught-Keeps :
      (e : Failure)
      → Keeps env (Kept side) (catch {A = Disbursement} (λ _ w. (err e, w)) zero_if_missing)
  unfolding catch
  caught-Keeps e = record { run = λ w p. (zero_if_missing-Keeps e).run w p }

  -- A row that is not there does not stop the transaction, whose view is what has been observed.
  found_or_zero-Keeps :
      (r : Sql DbDisbursement) → Keeps env (Kept side) (catch (found_or_error r) zero_if_missing)
  unfolding catch
  found_or_zero-Keeps (returned row) = record { run = λ w p. p }
  found_or_zero-Keeps (failed no_rows) = caught-Keeps _
  found_or_zero-Keeps (failed canceled) = caught-Keeps _
  found_or_zero-Keeps (failed deadline_exceeded) = caught-Keeps _
  found_or_zero-Keeps (failed (postgres s)) = caught-Keeps _
  found_or_zero-Keeps (failed (plain s)) = caught-Keeps _

  find_before-Keeps :
      Calm env (Kept side)
      → (id : ℕ) → Keeps env (Kept side) (catch (Disbursements.find_by_id id) zero_if_missing)
  unfolding catch Disbursements.find_by_id inspect_pool
  find_before-Keeps calm id =
      let inside =
        inspect_pool-Keeps env (Kept side) calm (find_statement id)
          (λ r. catch (found_or_error r) zero_if_missing) (find-Preserves side env id)
          found_or_zero-Keeps in
      record { run = λ w p. inside.run w p.0 }

  deletion_event-Triple :
      (s : Service) (readings : Readings) (actor_id request_id id : ℕ) (before : Disbursement)
      (deleted : Disbursement) (repeated : Bool)
      → side.Names readings.event_id id deleted_action
      → Triple env
          (Kept side)
          (OwesDeletion id (deleted, repeated))
          (event_of_deletion s readings actor_id request_id before deleted repeated)
          (λ _. Both (Kept side))
  unfolding event_of_deletion OwesDeletion
  deletion_event-Triple s readings actor_id request_id id before deleted true named =
      pure-Keeps env (Kept side) _
  deletion_event-Triple s readings actor_id request_id id before deleted false named = record {
    run = λ w p.
        (bind-Triple
            (new_event-Triple side env _ _ deleted.id deleted_action _ _ _ _ _ (rw p.0 named))
            (λ event.
              bind-Triple
                (insert_event-Triple side env event readings.server_now deleted.id deleted_action)
                (λ u. pure-Keeps env (Kept side) _))).run
          w (rw p.0 p.1);
  }

  store_deletion-Keeps :
      Calm env (Kept side)
      → (s : Service) (readings : Readings) (actor_id request_id id : ℕ)
      → side.Names readings.event_id id deleted_action
      → Keeps env (Kept side) (store_deletion s readings actor_id request_id id)
  unfolding store_deletion
  store_deletion-Keeps calm s readings actor_id request_id id named =
      bind-Triple (find_before-Keeps calm id) (λ before.
        bind-Triple (soft_delete-Triple id readings.store_now) (λ answer.
          deletion_event-Triple s readings actor_id request_id id before answer.0 answer.1 named))

  module _ (calm : Calm env (Kept side)) where
    pub soft_delete-KeepsOutside :
        (s : Service) (readings : Readings) (actor_id request_id id : ℕ)
        → side.Names readings.event_id id deleted_action
        → KeepsOutside env (Kept side) (soft_delete s readings actor_id request_id id)
    unfolding soft_delete
    soft_delete-KeepsOutside s readings actor_id request_id id named =
        mapping_error-Triple _
          (within_transaction-Keeps env (Kept side) calm _
            (store_deletion-Keeps calm s readings actor_id request_id id named))
          map_repository_error
