-- ===== src/Service/Disbursement/Audited.antt =====
-- internal/service/disbursement/service.go: every committed disbursement has the audit events of what
-- has happened to it.
use disbursment_api.Base.{ℕ}
use disbursment_api.Base.Text.{Text}
use disbursment_api.Domain.Disbursement.{CreateDisbursementInput, Decision}
use disbursment_api.Repository.World.{Env, World}
use disbursment_api.Repository.World.Keeps.{Ends-committed, Calm}
use disbursment_api.Service.Disbursement.{Service, Readings, create, update_status, soft_delete}
use disbursment_api.Service.Disbursement.Trail.{Audited, Kept, no_side}
use disbursment_api.Service.Disbursement.Creating.{create-KeepsOutside}
use disbursment_api.Service.Disbursement.Deciding.{update_status-KeepsOutside}
use disbursment_api.Service.Disbursement.Deleting.{soft_delete-KeepsOutside}

-- With no side the trail alone is kept.
pub calm_trail : (env : Env) → Calm env Audited → Calm env (Kept no_side)
calm_trail env calm n t h = (calm n t h.0, tt)

module _ (env : Env) (calm : Calm env Audited) (s : Service) (readings : Readings)
    (actor_id request_id : ℕ) (w : World) (before : Audited w.committed) where
  -- `Create` keeps the audit trail complete: if every committed disbursement has the audit events of
  -- its creation, decision and deletion, and what other sessions commit keeps this, then it holds
  -- after the call too, on every branch, and also where an exchange with the server is refused or its
  -- reply, that of the commit included, is lost.
  create-Audited :
      (key_value : Text) (input : CreateDisbursementInput)
      → let (r, w') = create s readings actor_id request_id key_value input env w in
        Audited w'.committed
  create-Audited key_value input =
      (Ends-committed (Kept no_side) _ (
        (create-KeepsOutside no_side env (calm_trail env calm) s readings actor_id request_id
            key_value input tt).run
          w (before, tt))).0

  -- `UpdateStatus` keeps the audit trail complete, in the same sense and under the same conditions.
  update_status-Audited :
      (id : ℕ) (decision : Decision)
      → let (r, w') = update_status s readings actor_id request_id id decision env w in
        Audited w'.committed
  update_status-Audited id decision =
      (Ends-committed (Kept no_side) _ (
        (update_status-KeepsOutside no_side env (calm_trail env calm) s readings actor_id request_id
            id decision tt).run
          w (before, tt))).0

  -- `SoftDelete` keeps the audit trail complete, in the same sense and under the same conditions.
  soft_delete-Audited :
      (id : ℕ)
      → let (r, w') = soft_delete s readings actor_id request_id id env w in Audited w'.committed
  soft_delete-Audited id =
      (Ends-committed (Kept no_side) _ (
        (soft_delete-KeepsOutside no_side env (calm_trail env calm) s readings actor_id request_id
            id tt).run
          w (before, tt))).0
