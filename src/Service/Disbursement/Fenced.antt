-- ===== src/Service/Disbursement/Fenced.antt =====
-- internal/service/disbursement/service.go, the transaction of `Create`: a claim that has been lost.
use disbursment_api.Base.{
  ℕ, ◌≡◌, refl, Bool, true, false, ◌&&◌, Option, none, some, find, arith, Bool-cases, Option-cases,
  inl, inr, ◌==◌, not, ◌||◌,
}
use disbursment_api.Failure.{Result, ok, err, is_ok}
use disbursment_api.Domain.Disbursement.{Disbursement}
use disbursment_api.Domain.Idempotency.{IdempotencyScope, is_in_progress, scope_valid}
use disbursment_api.Repository.Tables.{StoredClaim, Tables}
use disbursment_api.Repository.World.{Env, World, observe, within_transaction}
use disbursment_api.Repository.World.Rules.{
  Condition, Ends, Triple, Answered, bind-Triple, exec_tx-Triple, begin-Ends,
}
use disbursment_api.Repository.IdempotencyKeys
use disbursment_api.Repository.IdempotencyKeys.{at_scope, select_claim_statement, check_owner}
use disbursment_api.Service.Idempotency
use disbursment_api.Service.Disbursement.{Service, Readings, store_disbursement}

abbrev is_held : ℕ → Option StoredClaim → Bool
is_held claim_id none = false
is_held claim_id (some row) = is_in_progress row.state && row.claim_id == claim_id

-- Whether the tables show the claim in progress under its id.
abbrev pub holds_claim : IdempotencyScope → ℕ → Tables → Bool
holds_claim scope claim_id t = is_held claim_id (find (at_scope scope) t.idempotency_keys)

module _ (env : Env) (scope : IdempotencyScope) (claim_id : ℕ) (seen : Tables) where
  Lost : Condition
  Lost c v = (c ≡ seen) × (holds_claim scope claim_id v ≡ false)

  -- No value comes of it.
  Never : {A : Type 0} → A → Condition
  Never a c v = true ≡ false

  Stale : StoredClaim → Condition
  Stale row c v = (c ≡ seen) × ((is_in_progress row.state && row.claim_id == claim_id) ≡ false)

  select_claim-Stale :
      (c v : Tables)
      → Lost c v
      → let (r, t) = select_claim_statement scope v in Answered (λ t. t ≡ seen) Stale r c t
  unfolding Lost Stale select_claim_statement
  select_claim-Stale c v p = elim (Option-cases (find (at_scope scope) v.idempotency_keys)) [
    | inl missing ↦ rw missing p.0
    | inr (row, found) ↦ rw found (p.0, ground arith)
  ]

  check_owner-Triple :
      (row : StoredClaim) → Triple env (λ t. t ≡ seen) (Stale row) (check_owner claim_id row) Never
  unfolding Stale
  check_owner-Triple row =
      elim (Bool-cases (is_in_progress row.state && row.claim_id == claim_id)) [
        | inl held ↦ record { run = λ w p. ground arith }
        | inr lost ↦ rw lost (record { run = λ w p. p.0 })
      ]

  verify_ownership-Triple :
      Triple env (λ t. t ≡ seen) Lost (Idempotency.verify_ownership scope claim_id) Never
  unfolding Lost Idempotency.verify_ownership IdempotencyKeys.verify_ownership
  verify_ownership-Triple = elim (Bool-cases (not (scope_valid scope) || claim_id == 0)) [
    | inl invalid ↦ rw invalid (record { run = λ w p. p.0 })
    | inr valid ↦ rw valid (
        bind-Triple
          (exec_tx-Triple (select_claim_statement scope) (λ c v p. p.0) select_claim-Stale)
          check_owner-Triple)
  ]

never_ok :
    {A : Type 0} (seen : Tables) (o : Result A × World)
    → Ends (λ a c v. true ≡ false) (λ t. t ≡ seen) o
    → (is_ok o.0 ≡ false) × (o.1.committed ≡ seen)
never_ok seen (ok a, w) h = ground arith
never_ok seen (err e, w) h = (refl, h)

-- If the tables that the transaction of `Create` starts from do not show the claim in progress under
-- its id, the transaction fails, and what is committed afterwards is what others had committed.
pub store_disbursement-lost_claim :
    (env : Env) (s : Service) (readings : Readings) (actor_id request_id : ℕ)
    (scope : IdempotencyScope) (claim_id : ℕ) (d : Disbursement) (w : World)
    → holds_claim scope claim_id (env.others w.step w.committed) ≡ false
    → let (r, w') =
        within_transaction
          (store_disbursement s readings actor_id request_id scope claim_id d)
          env
          w in
      (is_ok r ≡ false) × (w'.committed ≡ env.others w.step w.committed)
unfolding within_transaction store_disbursement Lost Never
store_disbursement-lost_claim env s readings actor_id request_id scope claim_id d w lost =
    let seen = env.others w.step w.committed in
    never_ok seen _ (
      begin-Ends env (λ t. t ≡ seen) (Lost env scope claim_id seen) (λ a c v. true ≡ false) _
        (λ a t. true ≡ false) (λ c v p. p.0)
        (bind-Triple (verify_ownership-Triple env scope claim_id seen)
          (λ u. record { run = λ w p. cc }))
        (λ a c v p. cc) (env.exchange w.step) (observe env w) (refl, lost))
