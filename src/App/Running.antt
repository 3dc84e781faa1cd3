-- ===== src/App/Running.antt =====
-- internal/app/app.go and internal/httpapi: the requests that a running process serves, and the worker of
-- its relay, side by side on one database.
use disbursment_api.Base.{ℕ, ◌≡◌, All, List}
use disbursment_api.Base.Int.{ℤ}
use disbursment_api.Base.Text.{Text}
use disbursment_api.Http.Handling.{Request}
use disbursment_api.Http.Router.{App, Moment, dispatch, find_route, routes}
use disbursment_api.Http.Router.Telling.{NamedBy}
use disbursment_api.Http.Router.Trailing.{dispatch-Kept}
use disbursment_api.Middleware.RateLimit.{Limiter}
use disbursment_api.Repository.Tables.{Tables}
use disbursment_api.Repository.World.{Env, World}
use disbursment_api.Service.Disbursement.Trail.{Audited, Kept}
use disbursment_api.Service.Relay
use disbursment_api.Service.Relay.Ledger.{Says, ledger, tracked_ledger}
use disbursment_api.Service.Relay.Logged.{HasLog, DeliveredLogged}
use disbursment_api.Service.Relay.Worker.{Tick, work}
use disbursment_api.Service.Relay.Worker.Running.{work-Kept}

-- The event that a request may write is the one that its id is drawn for.
abbrev pub Draws : (ℕ → ℕ × Text) → App → Moment → Text → Text → Request → Type 0
Draws drawn app m method pattern request =
    NamedBy (λ event_id id action. drawn event_id ≡ (id, action)) app m
      (find_route method pattern routes) request

-- The committed tables before and after any number of requests and runs of the relay's worker, where
-- what the others commit during one of them comes from such requests and runs as well.
pub data Runs (drawn : ℕ → ℕ × Text) : Tables → Tables → Type 0 where
  quiet : (t : Tables) → Runs drawn t t
  after : {a b c : Tables} → Runs drawn a b → Runs drawn b c → Runs drawn a c
  requested :
      (env : Env)
      → ((n : ℕ) (t : Tables) → Runs drawn t (env.others n t))
      → (app : App) (m : Moment) (method pattern : Text) (request : Request) (l : Limiter)
        (w : World)
      → Draws drawn app m method pattern request
      → Runs drawn w.committed (dispatch app m method pattern request l env w).1.0.committed
  relayed :
      (env : Env)
      → ((n : ℕ) (t : Tables) → Runs drawn t (env.others n t))
      → (relay : Relay.Relay) (batch_size : ℤ) (moments : ℕ → Relay.Moment) (now : ℕ)
        (ticks : List Tick) (w : World)
      → Runs drawn w.committed (work relay batch_size moments now ticks env w).1.committed

-- The audit trail is complete, each event of the outbox and of the log is the one that its id is drawn
-- for, and each delivered event is in the log.
pub record Ledger (drawn : ℕ → ℕ × Text) (t : Tables) : Type 0 where
  pub audited : Audited t
  pub rows_say : All (λ row. Says drawn row.event) t.audit_outbox
  pub logs_say : All (Says drawn) t.audit_logs
  pub delivered_logged : DeliveredLogged t.audit_outbox t.audit_logs

module _ (drawn : ℕ → ℕ × Text) where
  entering :
      {Entered : ℕ → Type 0} (t : Tables)
      → Kept (ledger drawn Entered) t
      → Kept (ledger drawn (λ id. HasLog id t)) t
  entering t (trail, h) = (
    trail,
    record {
      rows_say = h.rows_say;
      logs_say = h.logs_say;
      delivered_logged = h.delivered_logged;
      entered = λ id there. there;
    },
  )

  Runs-Kept :
      {a b : Tables} (Entered : ℕ → Type 0)
      → Runs drawn a b
      → Kept (ledger drawn Entered) a
      → Kept (ledger drawn Entered) b
  Runs-Kept Entered (quiet t) h = h
  Runs-Kept Entered (after first next) h = Runs-Kept Entered next (Runs-Kept Entered first h)
  Runs-Kept Entered (requested env others app m method pattern request l w draws) h =
      dispatch-Kept (ledger drawn Entered) env (λ n t k. Runs-Kept Entered (others n t) k) app m
        request l w h method pattern draws
  Runs-Kept Entered (relayed env others relay batch_size moments now ticks w) h =
      work-Kept env (tracked_ledger drawn Entered)
        (record {
          holds = λ n t k. Runs-Kept Entered (others n t) k;
          logs = λ event_id n t k. (
            Runs-Kept Entered (others n t) k.0,
            (Runs-Kept (λ id. HasLog id t) (others n t) (entering t k.0)).1.entered event_id k.1,
          );
        })
        relay batch_size moments now ticks w h

-- Whatever requests are served and whatever the workers of the relay take up, side by side and whatever
-- exchanges fail, the audit trail stays complete also where the relay moves events to the log and deletes
-- them from the outbox, and the log loses no event: if the id of each event that a request may write is
-- drawn for that event alone, and at first the trail is complete, each event of the outbox and of the log
-- is the one that its id is drawn for, and each delivered event is in the log, then all this holds at the
-- end too.
pub Runs-Ledger :
    {a b : Tables} (drawn : ℕ → ℕ × Text)
    → Runs drawn a b
    → Ledger drawn a
    → Ledger drawn b × ((event_id : ℕ) → HasLog event_id a → HasLog event_id b)
Runs-Ledger {a} drawn runs h =
    let (trail, linked) =
      Runs-Kept drawn (λ id. HasLog id a) runs
        (
          h.audited,
          record {
            rows_say = h.rows_say;
            logs_say = h.logs_say;
            delivered_logged = h.delivered_logged;
            entered = λ id there. there;
          },
        ) in
    (
      record {
        audited = trail;
        rows_say = linked.rows_say;
        logs_say = linked.logs_say;
        delivered_logged = linked.delivered_logged;
      },
      linked.entered,
    )
