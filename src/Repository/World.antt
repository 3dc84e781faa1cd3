-- ===== src/Repository/World.antt =====
-- The database behind the stores, and internal/repository/postgres/transaction.go. A statement runs
-- on the tables and yields its rows or an error. The environment decides, at each exchange with the
-- server, whether it works, is refused, or is carried out while its reply is lost; and what other
-- sessions have committed since the last exchange outside a transaction.
pub mod Rules
pub mod Handlers
pub mod Keeps
pub mod Quiet
use Prim.Native.String.{String}
use disbursment_api.Base.{ℕ, ◌+◌, Bool, List, ◌∷◌, if◌then◌else◌}
use disbursment_api.Domain.Idempotency.{ClaimOutcome}
use disbursment_api.Failure.{
  Cause, canceled, deadline_exceeded, postgres, plain, Failure, raw, Result, ok, err,
}
use disbursment_api.Repository.Errors.{classify}
use disbursment_api.Repository.Tables.{Tables}

-- What can go wrong between the program and the server. sql.ErrNoRows is no such fault: only a
-- statement that finds no row yields it.
pub data Fault : Type 0 where
  context_canceled context_deadline : Fault
  server_error connection_error : String → Fault

abbrev pub cause_of : Fault → Cause
cause_of context_canceled = canceled
cause_of context_deadline = deadline_exceeded
cause_of (server_error state) = postgres state
cause_of (connection_error message) = plain message

pub data Exchange : Type 0 where
  works : Exchange
  refused reply_lost : Fault → Exchange

pub data Sql (A : Type 0) : Type 0 where
  returned : A → Sql A
  failed : Cause → Sql A

abbrev pub Statement : Type 0 → Type 0
Statement A = Tables → Sql A × Tables

-- What the program tells its metrics collector, in internal/observability/metrics/collector.go.
pub data Metric : Type 0 where
  idempotency_claim : ClaimOutcome → Metric
  finalization_outcome auth_failure : String → Metric
  delivery_success delivery_failure rate_limiter_eviction : Metric
  backlog_depth : ℕ → Metric
  reconciliation_counts : ℕ → ℕ → Metric

-- `committed` is what other sessions see, `view` what the open transaction sees.
pub record World : Type 0 where
  pub committed : Tables
  pub view : Tables
  pub step : ℕ
  pub recorded : List Metric

pub record Env : Type 0 where
  pub exchange : ℕ → Exchange
  pub others : ℕ → Tables → Tables

abbrev pub Action : Type 0 → Type 0
Action A = Env → World → Result A × World

abbrev pub pure : {A : Type 0} → A → Action A
pure a env w = (ok a, w)

abbrev pub raise : {A : Type 0} → Failure → Action A
raise e env w = (err e, w)

abbrev pub lift : {A : Type 0} → Result A → Action A
lift r env w = (r, w)

abbrev pub continue : {A B : Type 0} → Result A → (A → Action B) → Action B
continue (ok a) f env w = f a env w
continue (err e) f env w = (err e, w)

infixl 5 ◌>>=◌ ◌>>◌
unfoldable pub ◌>>=◌ : {A B : Type 0} → Action A → (A → Action B) → Action B
◌>>=◌ m f env w = let (r, w') = m env w in continue r f env w'

abbrev pub ◌>>◌ : {A B : Type 0} → Action A → Action B → Action B
m >> k = m >>= λ _. k

abbrev pub tick : World → World
tick w = record w { step = w.step + 1 }

-- A statement inside the open transaction.
unfoldable pub answer_tx : {A : Type 0} → Exchange → Sql A × Tables → World → Sql A × World
answer_tx works (r, t) w = (r, record w { view = t })
answer_tx (refused f) (r, t) w = (failed (cause_of f), w)
answer_tx (reply_lost f) (r, t) w = (failed (cause_of f), record w { view = t })

unfoldable pub query_tx : {A : Type 0} → Statement A → Env → World → Sql A × World
unfolding answer_tx
query_tx q env w = answer_tx (env.exchange w.step) (q w.view) (tick w)

-- A statement on a connection of the pool, which commits by itself. Where a transaction is open, it
-- has written nothing yet in this program, so that its view follows.
unfoldable pub answer_pool : {A : Type 0} → Exchange → Sql A × Tables → World → Sql A × World
answer_pool works (r, t) w = (r, record w { committed = t; view = t })
answer_pool (refused f) (r, t) w = (failed (cause_of f), w)
answer_pool (reply_lost f) (r, t) w = (failed (cause_of f), record w { committed = t; view = t })

abbrev pub observe : Env → World → World
observe env w =
    let seen = env.others w.step w.committed in
    record w { committed = seen; view = seen; step = w.step + 1 }

unfoldable pub query_pool : {A : Type 0} → Statement A → Env → World → Sql A × World
unfolding answer_pool
query_pool q env w =
    answer_pool (env.exchange w.step) (q (env.others w.step w.committed)) (observe env w)

-- The errors of a statement go through `Classify`.
abbrev pub classified : {A : Type 0} → Sql A × World → Result A × World
classified (returned a, w) = (ok a, w)
classified (failed c, w) = (err (classify (raw c)), w)

unfoldable pub exec_tx : {A : Type 0} → Statement A → Action A
exec_tx q env w = classified (query_tx q env w)

unfoldable pub exec_pool : {A : Type 0} → Statement A → Action A
exec_pool q env w = classified (query_pool q env w)

-- A statement whose error the caller looks at.
abbrev handle : {A B : Type 0} → Sql A × World → (Sql A → Action B) → Env → Result B × World
handle (r, w) k env = k r env w

unfoldable pub inspect_tx : {A B : Type 0} → Statement A → (Sql A → Action B) → Action B
inspect_tx q k env w = handle (query_tx q env w) k env

unfoldable pub inspect_pool : {A B : Type 0} → Statement A → (Sql A → Action B) → Action B
inspect_pool q k env w = handle (query_pool q env w) k env

-- `Commit`: the view becomes what is committed, also if only the reply is lost.
unfoldable pub commit : {A : Type 0} → Exchange → A → World → Result A × World
commit works a w = (ok a, record w { committed = w.view })
commit (refused f) a w = (err (classify (raw (cause_of f))), w)
commit (reply_lost f) a w = (err (classify (raw (cause_of f))), record w { committed = w.view })

abbrev pub finish : {A : Type 0} → Result A × World → Env → Result A × World
finish (err e, w) env = (err e, w)
finish (ok a, w) env = commit (env.exchange w.step) a (tick w)

unfoldable pub begin : {A : Type 0} → Exchange → Action A → Action A
begin works operation env w = finish (operation env w) env
begin (refused f) operation env w = (err (classify (raw (cause_of f))), w)
begin (reply_lost f) operation env w = (err (classify (raw (cause_of f))), w)

-- `WithinTransaction`: an error of the operation, and the deferred `Rollback`, drop the view.
unfoldable pub within_transaction : {A : Type 0} → Action A → Action A
unfolding begin commit
within_transaction operation env w = begin (env.exchange w.step) operation env (observe env w)

-- A call of the collector, where there is one.
unfoldable pub record_metric : Bool → Metric → Action (Unit {0})
record_metric collector metric env w =
    (ok tt, if collector then record w { recorded = metric ∷ w.recorded } else w)

-- An error is replaced, or looked at.
abbrev pub map_error : {A : Type 0} → (Failure → Failure) → Result A × World → Result A × World
map_error f (ok a, w) = (ok a, w)
map_error f (err e, w) = (err (f e), w)

unfoldable pub mapping_error : {A : Type 0} → (Failure → Failure) → Action A → Action A
mapping_error f m env w = map_error f (m env w)

abbrev pub recover : {A : Type 0} → Result A × World → (Failure → Action A) → Env → Result A × World
recover (ok a, w) f env = (ok a, w)
recover (err e, w) f env = f e env w

unfoldable pub catch : {A : Type 0} → Action A → (Failure → Action A) → Action A
catch m f env w = recover (m env w) f env

-- `_ = m`: the error is dropped.
unfoldable pub ignore_error : {A : Type 0} → Action A → Action (Unit {0})
ignore_error m env w = (ok tt, (m env w).1)

-- The caller looks at the value or the error of an action and goes on.
abbrev pub go_on :
    {A B : Type 0} → Result A × World → (Result A → Action B) → Env → Result B × World
go_on (r, w) k env = k r env w

unfoldable pub attempt : {A B : Type 0} → Action A → (Result A → Action B) → Action B
attempt m k env w = go_on (m env w) k env
