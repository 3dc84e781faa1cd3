-- ===== src/Http/Router/Trailing.antt =====
-- internal/httpapi: whatever is requested, the audit trail stays complete.
use disbursment_api.Base.{◌&&◌, Bool, Option, none, some}
use disbursment_api.Base.Text.{Text}
use disbursment_api.Failure.{Result, ok, err}
use disbursment_api.Http.Handling.{Reply, Request, written, respond}
use disbursment_api.Http.Router.{
  App, Moment, Endpoint, auth, disbursement, login, refresh, logout, limited, serve, served,
  find_route, routes, dispatch,
}
use disbursment_api.Http.Router.Telling.{NamedBy}
use disbursment_api.Http.Router.Handled.{bound-KeepsOutside, guarded-KeepsOutside}
use disbursment_api.Http.Sessions
use disbursment_api.Http.Sessions.{AuthHandler}
use disbursment_api.Middleware.RateLimit.{Limiter, Verdict, allowed, too_many_requests}
use disbursment_api.Repository.World.{
  Env, World, Action, record_metric, Metric, auth_failure, rate_limiter_eviction,
}
use disbursment_api.Repository.World.Rules.{bind-Triple}
use disbursment_api.Repository.World.Handlers.{record_metric-Triple}
use disbursment_api.Repository.World.Keeps.{
  KeepsOutside, Outside, Calm, pure-KeepsOutside, Ends-committed,
}
use disbursment_api.Service.Auth.Apart.{
  login-KeepsOutside, refresh-KeepsOutside, logout-KeepsOutside,
}
use disbursment_api.Service.Disbursement.Trail.{Audited, Side, Kept, no_side}
use disbursment_api.Service.Disbursement.Audited.{calm_trail}

module _ (side : Side) (env : Env) (calm : Calm env (Kept side)) where
  written-Kept :
      (id : Text) (o : Result Reply × World)
      → Kept side o.1.committed
      → Kept side (written id o).1.committed
  written-Kept id (ok reply, w) h = h
  written-Kept id (err e, w) h = h

  respond-Kept :
      (id : Text) (action : Action Reply) (w : World)
      → KeepsOutside env (Kept side) action
      → Kept side w.committed
      → Kept side (respond id action env w).1.committed
  unfolding respond
  respond-Kept id action w keeps h =
      written-Kept id (action env w) (Ends-committed (Kept side) _ (keeps.run w h))

  counted-Kept :
      (collector : Bool) (metric : Metric) (w : World)
      → Kept side w.committed
      → Kept side (record_metric collector metric env w).1.committed
  counted-Kept collector metric w h =
      Ends-committed (Kept side) (record_metric collector metric env w)
        ((record_metric-Triple {P = Outside (Kept side)} collector metric).run w h)

  limited-Kept :
      (app : App) (l : Limiter) (o : Option (Verdict × Limiter)) (request : Request)
      (action : Action Reply) (w : World)
      → KeepsOutside env (Kept side) action
      → Kept side w.committed
      → Kept side (limited app l o request action env w).1.0.committed
  limited-Kept app l none request action w keeps h = h
  limited-Kept app l (some (too_many_requests, l')) request action w keeps h =
      counted-Kept app.collector (auth_failure "rate_limited") w h
  limited-Kept app l (some (allowed was_evicted, l')) request action w keeps h =
      respond-Kept request.request_id action _ keeps
        (counted-Kept (app.collector && was_evicted) rate_limiter_eviction w h)

  module _ (app : App) (m : Moment) (request : Request) (l : Limiter) (w : World)
      (before : Kept side w.committed) where
    serve-Kept :
        (endpoint : Endpoint)
        → NamedBy side.Names app m (some endpoint) request
        → Kept side (serve app m endpoint request l env w).1.0.committed
    unfolding serve Sessions.login Sessions.refresh Sessions.logout
    serve-Kept (auth login) named =
        limited-Kept app l _ request _ w
          (bind-Triple (bound-KeepsOutside side env _ _ _ _) (λ body.
            bind-Triple (login-KeepsOutside side env calm _ _ _ _)
              (λ response. pure-KeepsOutside env (Kept side) _)))
          before
    serve-Kept (auth refresh) named =
        limited-Kept app l _ request _ w
          (bind-Triple (bound-KeepsOutside side env _ _ _ _) (λ body.
            bind-Triple (refresh-KeepsOutside side env calm _ _ _)
              (λ response. pure-KeepsOutside env (Kept side) _)))
          before
    serve-Kept (auth logout) named =
        respond-Kept request.request_id _ w
          (bind-Triple (bound-KeepsOutside side env _ _ _ _) (λ body.
            bind-Triple (logout-KeepsOutside side env calm _ _ _)
              (λ u. pure-KeepsOutside env (Kept side) _)))
          before
    serve-Kept (disbursement endpoint) named =
        respond-Kept request.request_id _ w
          (guarded-KeepsOutside side env calm app m endpoint request named) before

    pub dispatch-Kept :
        (method pattern : Text)
        → NamedBy side.Names app m (find_route method pattern routes) request
        → Kept side (dispatch app m method pattern request l env w).1.0.committed
    unfolding dispatch
    dispatch-Kept method pattern named = go (find_route method pattern routes) named
      where
        go :
            (o : Option Endpoint)
            → NamedBy side.Names app m o request
            → Kept side (served app m o request l env w).1.0.committed
        go none unnamed = before
        go (some endpoint) given = serve-Kept endpoint given

-- Nothing has to be known of the ids where nothing but the trail is kept.
unnamed :
    (app : App) (m : Moment) (o : Option Endpoint) (request : Request)
    → NamedBy no_side.Names app m o request
unnamed app m none request = tt
unnamed app m (some (auth endpoint)) request = tt
unnamed app m (some (disbursement endpoint)) request = λ id action told. tt

-- Any request keeps the audit trail complete, whatever its method, route, headers and body, and
-- whoever sends it: if every committed disbursement has the audit events of its creation,
-- decision and deletion, and what other sessions commit keeps this, then it holds after the
-- request too, on every branch and whatever exchanges with the database fail.
pub dispatch-Audited :
    (env : Env)
    → Calm env Audited
    → (app : App) (m : Moment) (request : Request) (l : Limiter) (w : World) → Audited w.committed
    → (method pattern : Text)
    → Audited (dispatch app m method pattern request l env w).1.0.committed
dispatch-Audited env calm app m request l w before method pattern =
    (dispatch-Kept no_side env (calm_trail env calm) app m request l w (before, tt) method pattern
      (unnamed app m (find_route method pattern routes) request)).0
