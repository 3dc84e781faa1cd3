-- ===== src/Http/Router/Telling.antt =====
-- internal/httpapi/disbursement_handler.go: what the audit event of a request tells of, and the id that is drawn
-- for it.
use disbursment_api.Base.{ℕ, ◌≡◌, Option, none, some}
use disbursment_api.Base.Text.{Text, to_upper}
use disbursment_api.Http.Disbursements.{status_named}
use disbursment_api.Http.Dto.{UpdateDisbursementStatusRequest}
use disbursment_api.Http.Handling.{Request}
use disbursment_api.Http.Router.{
  App, Moment, Endpoint, auth, disbursement, DisbursementEndpoint, create, list, get_by_id,
  update_status, delete,
}
use disbursment_api.Service.Disbursement.{created_action, deleted_action, decision_action}

abbrev told : Option ℕ → Option Text → Option (ℕ × Text)
told (some id) (some action) = some (id, action)
told (some id) none = none
told none action = none

abbrev action_of : Option UpdateDisbursementStatusRequest → Option Text
action_of none = none
action_of (some body) = some (decision_action (status_named (to_upper body.status)))

-- What the event of a request tells of, if the handler gets as far as an event.
unfoldable pub tells_of : App → Moment → DisbursementEndpoint → Request → Option (ℕ × Text)
tells_of app m create request = some (m.readings.disbursement_id, created_action)
tells_of app m update_status request =
    told (app.disbursement_handler.binder.uuid request.id)
      (action_of (app.disbursement_handler.binder.status request.body))
tells_of app m delete request =
    told (app.disbursement_handler.binder.uuid request.id) (some deleted_action)
tells_of app m list request = none
tells_of app m get_by_id request = none

-- The id that is drawn for the event names what it tells of.
abbrev pub Named : (ℕ → ℕ → Text → Type 0) → App → Moment → DisbursementEndpoint → Request → Type 0
Named Names app m endpoint request =
    (id : ℕ) (action : Text)
    → tells_of app m endpoint request ≡ some (id, action)
    → Names m.readings.event_id id action

-- The same of a request that may have no route, or the route of a session.
abbrev pub NamedBy : (ℕ → ℕ → Text → Type 0) → App → Moment → Option Endpoint → Request → Type 0
NamedBy Names app m none request = Unit
NamedBy Names app m (some (auth endpoint)) request = Unit
NamedBy Names app m (some (disbursement endpoint)) request = Named Names app m endpoint request
