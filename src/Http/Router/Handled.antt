-- ===== src/Http/Router/Handled.antt =====
-- internal/httpapi: every handler keeps the audit trail complete.
use disbursment_api.Base.{
  ℕ, ◌≡◌, refl, ◌==◌, true, false, Bool, Option, none, some, List, [], ◌∷◌, if◌then◌else◌,
}
use disbursment_api.Base.Text.{Text, is_empty, to_upper}
use disbursment_api.Failure.{Failure, FieldError}
use disbursment_api.Http.Disbursements
use disbursment_api.Http.Disbursements.{present_key, with_identity, status_named, decision_of}
use disbursment_api.Http.Dto.{UpdateDisbursementStatusRequest}
use disbursment_api.Http.Handling.{Request, required_or, if_valid, bound}
use disbursment_api.Http.Router.{
  App, Moment, DisbursementEndpoint, create, list, get_by_id, update_status, delete, handler,
  guarded,
}
use disbursment_api.Http.Router.Telling.{tells_of, Named}
use disbursment_api.Http.Validation.{Engine, Field}
use disbursment_api.Middleware.Authentication.{
  Authenticator, authenticate, or_unauthorized, authenticated,
}
use disbursment_api.Middleware.Roles.{UserIdentity}
use disbursment_api.Repository.Disbursements.Listing
use disbursment_api.Repository.Disbursements.Listing.{
  Server, DisbursementFilter, bad_status, count_statement, list_statement,
}
use disbursment_api.Repository.World.{Sql, Env, Action}
use disbursment_api.Repository.Tables.{Tables}
use disbursment_api.Repository.World.Rules.{Triple, bind-Triple, pure-Triple, conseq-Triple}
use disbursment_api.Repository.World.Handlers.{record_metric-Triple, mapping_error-Triple}
use disbursment_api.Repository.World.Keeps.{
  Preserves, Outside, KeepsOutside, Calm, pure-KeepsOutside, raise-KeepsOutside, lift-KeepsOutside,
  if-KeepsOutside, exec_pool-KeepsOutside,
}
use disbursment_api.Service.Disbursement
use disbursment_api.Service.Disbursement.{Readings, created_action, deleted_action, decision_action}
use disbursment_api.Service.Disbursement.Trail.{Side, Kept}
use disbursment_api.Service.Disbursement.Creating.{create-KeepsOutside}
use disbursment_api.Service.Disbursement.Deciding.{update_status-KeepsOutside, find_by_id-Keeps}
use disbursment_api.Service.Disbursement.Deleting.{soft_delete-KeepsOutside}

module _ (side : Side) where
  if-Kept :
      {A : Type 0} (b : Bool) (x y : Sql A × Tables)
      → (Kept side) x.1
      → (Kept side) y.1
      → (Kept side) (if b then x else y).1
  if-Kept true x y hx hy = hx
  if-Kept false x y hx hy = hy

  count-Preserves :
      (server : Server) (filter : DisbursementFilter)
      → Preserves (Kept side) (count_statement server filter)
  unfolding count_statement
  count-Preserves server filter t h = if-Kept (bad_status filter.status) _ _ h h

  list-Preserves :
      (server : Server) (filter : DisbursementFilter)
      → Preserves (Kept side) (list_statement server filter)
  unfolding list_statement
  list-Preserves server filter t h = if-Kept (bad_status filter.status) _ _ h (if-Kept _ _ _ h h)

  named_decision :
      (app : App) (m : Moment) (request : Request)
      → Named side.Names app m update_status request
      → (id : ℕ) (body : UpdateDisbursementStatusRequest)
      → app.disbursement_handler.binder.uuid request.id ≡ some id
      → app.disbursement_handler.binder.status request.body ≡ some body
      → side.Names m.readings.event_id id (decision_action (status_named (to_upper body.status)))
  unfolding tells_of
  named_decision app m request named id body found given = named _ _ (rw (found, given) refl)

  named_deletion :
      (app : App) (m : Moment) (request : Request)
      → Named side.Names app m delete request
      → (id : ℕ) → app.disbursement_handler.binder.uuid request.id ≡ some id
      → side.Names m.readings.event_id id deleted_action
  unfolding tells_of
  named_deletion app m request named id found = named _ _ (rw found refl)

module _ (side : Side) (env : Env) where
  -- What is known besides the trail.
  knowing-Triple :
      {A E : Type 0} {m : Action A}
      → (E → KeepsOutside env (Kept side) m)
      → Triple env (Kept side) (λ c v. Kept side c × E) m (λ _. Outside (Kept side))
  knowing-Triple h = record { run = λ w p. (h p.1).run w p.0 }

  required_or-Triple :
      {A : Type 0} (e : Failure) (o : Option A)
      → Triple env
          (Kept side)
          (Outside (Kept side))
          (required_or e o)
          (λ a c v. Kept side c × (o ≡ some a))
  required_or-Triple e none = record { run = λ w p. p }
  required_or-Triple e (some a) = pure-Triple (λ c v p. (p, refl))

  if_valid-Triple :
      {A : Type 0} (o : Option A) (details : List FieldError) (a : A)
      → Triple env
          (Kept side)
          (λ c v. Kept side c × (o ≡ some a))
          (if_valid details a)
          (λ a c v. Kept side c × (o ≡ some a))
  if_valid-Triple o [] a = pure-Triple (λ c v p. p)
  if_valid-Triple o (detail ∷ details) a = record { run = λ w p. p.0 }

  bound-Triple :
      {A : Type 0} (engine : Engine) (fields : A → List Field) (e : Failure) (o : Option A)
      → Triple env
          (Kept side)
          (Outside (Kept side))
          (bound engine fields e o)
          (λ a c v. Kept side c × (o ≡ some a))
  unfolding bound
  bound-Triple engine fields e o = bind-Triple (required_or-Triple e o) (λ a. if_valid-Triple o _ a)

  pub bound-KeepsOutside :
      {A : Type 0} (engine : Engine) (fields : A → List Field) (e : Failure) (o : Option A)
      → KeepsOutside env (Kept side) (bound engine fields e o)
  bound-KeepsOutside engine fields e o =
      conseq-Triple (bound-Triple engine fields e o) (λ c v p. p) (λ a c v p. p.0)

  present_key-KeepsOutside : (key : Text) → KeepsOutside env (Kept side) (present_key key)
  present_key-KeepsOutside key =
      if-KeepsOutside env (Kept side) (is_empty key) _ _ (raise-KeepsOutside env (Kept side) _)
        (pure-KeepsOutside env (Kept side) key)

  authenticated-KeepsOutside :
      (a : Authenticator) (now : ℕ) (header : Text)
      → KeepsOutside env (Kept side) (authenticated a now header)
  unfolding authenticated
  authenticated-KeepsOutside a now header = go (authenticate a now header)
    where
      go : (o : Option UserIdentity) → KeepsOutside env (Kept side) (or_unauthorized a.collector o)
      go (some identity) = pure-KeepsOutside env (Kept side) identity
      go none = bind-Triple (record_metric-Triple _ _) (λ u. raise-KeepsOutside env (Kept side) _)

  module _ (calm : Calm env (Kept side)) where
    find-KeepsOutside : (id : ℕ) → KeepsOutside env (Kept side) (Disbursement.get_by_id id)
    unfolding Disbursement.get_by_id
    find-KeepsOutside id =
        mapping_error-Triple _
          (conseq-Triple (find_by_id-Keeps side env calm id) (λ c v p. p) (λ a c v p. p.0)) _

    rows-KeepsOutside :
        (server : Server) (filter : DisbursementFilter)
        → KeepsOutside env (Kept side) (Disbursement.list server filter)
    unfolding Disbursement.list Listing.list
    rows-KeepsOutside server filter =
        bind-Triple
          (mapping_error-Triple _
            (bind-Triple
              (exec_pool-KeepsOutside env (Kept side) calm _ (count-Preserves side server filter))
              (λ total.
                if-KeepsOutside env (Kept side) (total == 0) _ _
                  (pure-KeepsOutside env (Kept side) _)
                  (bind-Triple
                    (exec_pool-KeepsOutside env (Kept side) calm _
                      (list-Preserves side server filter))
                    (λ rows. pure-KeepsOutside env (Kept side) _))))
            _)
          (λ listed.
            bind-Triple (lift-KeepsOutside env (Kept side) _)
              (λ pagination. pure-KeepsOutside env (Kept side) _))

    handler-KeepsOutside :
        (app : App) (m : Moment) (endpoint : DisbursementEndpoint) (identity : UserIdentity)
        (request : Request)
        → Named side.Names app m endpoint request
        → KeepsOutside env (Kept side) (handler app m endpoint identity request)
    unfolding Disbursements.create Disbursements.list Disbursements.get_by_id
        Disbursements.update_status Disbursements.delete tells_of decision_of
    handler-KeepsOutside app m create identity request named =
        bind-Triple (bound-KeepsOutside _ _ _ _) (λ body.
          bind-Triple (present_key-KeepsOutside request.idempotency_key) (λ key.
            bind-Triple
              (create-KeepsOutside side env calm _ m.readings identity.id _ key _ (named _ _ refl))
              (λ result. pure-KeepsOutside env (Kept side) _)))
    handler-KeepsOutside app m list identity request named =
        bind-Triple (bound-KeepsOutside _ _ _ _) (λ query.
          bind-Triple (lift-KeepsOutside env (Kept side) _) (λ range.
            bind-Triple (rows-KeepsOutside _ _) (λ listed. pure-KeepsOutside env (Kept side) _)))
    handler-KeepsOutside app m get_by_id identity request named =
        bind-Triple (required_or-Triple _ _) (λ id.
          knowing-Triple (λ found.
            bind-Triple (find-KeepsOutside id) (λ d. pure-KeepsOutside env (Kept side) _)))
    handler-KeepsOutside app m update_status identity request named =
        bind-Triple (required_or-Triple _ _) (λ id. knowing-Triple (λ found.
          bind-Triple (bound-Triple _ _ _ _) (λ body. knowing-Triple (λ given.
            bind-Triple
              (update_status-KeepsOutside side env calm _ m.readings identity.id _ id _
                (named_decision side app m request named id body found given))
              (λ updated. pure-KeepsOutside env (Kept side) _)))))
    handler-KeepsOutside app m delete identity request named =
        bind-Triple (required_or-Triple _ _) (λ id. knowing-Triple (λ found.
          bind-Triple
            (soft_delete-KeepsOutside side env calm _ m.readings identity.id _ id
              (named_deletion side app m request named id found))
            (λ u. pure-KeepsOutside env (Kept side) _)))

    pub guarded-KeepsOutside :
        (app : App) (m : Moment) (endpoint : DisbursementEndpoint) (request : Request)
        → Named side.Names app m endpoint request
        → KeepsOutside env (Kept side) (guarded app m endpoint request)
    unfolding guarded
    guarded-KeepsOutside app m endpoint request named =
        bind-Triple (authenticated-KeepsOutside _ m.now request.authorization) (λ identity.
          bind-Triple (lift-KeepsOutside env (Kept side) _)
            (λ admitted. handler-KeepsOutside app m endpoint admitted request named))
