-- ===== src/Lib.antt =====
-- A verification library of the disbursement API: its business rules, its stores over PostgreSQL, and
-- its services, with the theorems that make them correct.
--
-- The program takes requests to pay out money. An operator creates a disbursement under an
-- idempotency key, an administrator approves or rejects it, and a pending one may be deleted. Each
-- of these writes an audit event into an outbox in the same transaction.
--
-- The parts, from the bottom up:
--
-- Base, Base/Int, Base/Text. Lists, Boolean tests and numbers. Go's int and int64 are integers whose
--   sums are reduced to 64 bits where the source can overflow. A Go string is the list of its runes,
--   so that invalid UTF-8 has no counterpart; PostgreSQL refuses U+0000 in a
--   text, which the INSERT of a disbursement and the UPDATE of its status test, and which all other
--   texts are taken not to have; `unicode.ToUpper` and `ToLower` are exact where the
--   result is ASCII. UUIDs are numbers, with 0 for uuid.Nil; times are nanoseconds since the zero time.
-- Failure. The error values: internal/domain/error.go's, internal/repository/errors.go's, and those
--   below both.
-- Sensitivity. internal/sensitivity/sensitivity.go.
-- Domain. internal/domain: error.go in Domain/Errors, disbursement.go in Domain/Disbursement,
--   idempotency.go in Domain/Idempotency, keyprovider.go in Domain/KeyProvider, audit.go in
--   Domain/Audit. A JSON value is a tree, as encoding/json decodes it.
-- Repository. internal/repository/errors.go in Repository/Errors, the rows and tables of
--   migrations/000001_initial_schema.up.sql in Repository/Tables, and internal/repository/postgres:
--   transaction.go in Repository/World, disbursement.go in Repository/Disbursements, idempotency.go
--   in Repository/IdempotencyKeys, outbox.go and projection.go in Repository/Outbox,
--   refresh_session.go and user.go in Repository/Sessions.
-- Service. internal/service/idempotency in Service/Idempotency, internal/service/disbursement in
--   Service/Disbursement, internal/service/audit in Service/Relay, internal/service/auth in
--   Service/Auth.
-- Middleware. internal/httpapi/middleware: rate_limit.go in Middleware/RateLimit, a request being one
--   step on the limiter; rbac.go and the roles of internal/domain/auth.go in Middleware/Roles; auth.go
--   in Middleware/Authentication.
-- Response. internal/httpapi/response/response.go: the error response and its Retry-After.
-- Http. internal/httpapi: validation in Http/Validation, dto in Http/Dto, disbursement_handler.go in
--   Http/Disbursements, auth_handler.go in Http/Sessions, router.go in Http/Router. Http/Handling has
--   what the handlers share: a handler ends with a reply, or with an error that is written as one.
-- Config. internal/config/config.go: the readings in Config/Reading, Load and its validation in
--   Config/Loading, and the key provider that app.go makes of it in Config/Secrets.
-- Metrics. internal/observability/metrics/collector.go: incMapCounter with its locks, for any number of
--   concurrent calls, in Metrics/Counters; the labels in Metrics/Labels; and the collector, with such a
--   call as one step and what internal/httpapi/middleware/access_log.go counts, in Metrics/Collector.
-- App. internal/app/app.go with the constructors that can fail, internal/database/database.go and
--   cmd/api/main.go: a process from its environment to its exit. App/Running has the requests and the
--   worker of the relay side by side on one database, where what the other sessions commit during one
--   of them is made of such requests and workers again.
-- Tests. Concrete values, and the theorems applied to them.
--
-- The database. A statement is a function from the tables to its rows or its error and the new
-- tables: its WHERE and SET clauses, and the constraints of the schema. An action of the program
-- runs in an environment that decides, at each exchange with the server, whether it works, is
-- refused, or is carried out while its reply is lost, and what other sessions have committed since
-- the last exchange. A transaction reads what is committed when it begins, writes to its own view,
-- and commits the view whole; a lost reply of the commit leaves the view committed while the program
-- sees an error. Between the statements of one transaction no other session's commits are shown to
-- it: what that leaves open, the interleaving of single statements, is the subject of
-- Repository/Disbursements/Winner, Repository/IdempotencyKeys/Fencing and
-- Repository/Sessions/Rotation, where any sessions' statements come in any order. PostgreSQL runs
-- each as one atomic step on the rows that it locks.
--
-- Rules for actions are in Repository/World/Rules: a triple says what holds of the committed tables
-- and of the view before an action, after a result, and after an error.
-- Repository/World/Keeps has those for an invariant that an action keeps, Repository/World/Quiet those
-- for what an action returns and leaves while every exchange works and no other session commits. The
-- rules of the services are stated for any side condition on the outbox and the log (Side in
-- Service/Disbursement/Trail), and those of the relay for any invariant that its statements keep
-- (Tracked in Service/Relay/Logged); Service/Relay/Ledger and Service/Relay/Traced fill these in. An
-- id of an event is drawn at random and taken to be drawn for one event only: `drawn` is what for.
--
-- The functions keep the names of the source in snake case (`UpdateStatus` is update_status); the
-- transaction body of a service's method is a function of its own, such as store_decision. What
-- the source reads from clocks and generators is an argument. Parameters stand for code outside
-- the repository: time.ParseDuration, strconv, url.Parse and net's parsers of addresses, gin's
-- routing and binding, the engine of go-playground/validator, SHA-256, the canonical JSON of
-- encoding/json, the parsing of UUIDs, the printing of UUIDs and times into JSON, bcrypt, the
-- signing and the verification of JWTs, which text a JSONB column hands back (it normalises the one
-- that was written, so a replayed body equals the first only as JSON), and, in a list of
-- disbursements, ILIKE, the collation and, for each query, the order of the rows. There is no
-- recursion on fuel: every loop of the modelled code runs over a list.
--
-- Not modelled: the writing of JSON, logging, the health checks, and the middleware for request
-- ids, panics and body limits: all these are glue, or rest on libraries. The services record their
-- metrics in the world in order; the collector counts them in Metrics.
pub mod Base
pub mod Failure
pub mod Sensitivity
pub mod Domain
pub mod Repository
pub mod Service
pub mod Middleware
pub mod Response
pub mod Http
pub mod Config
pub mod Metrics
pub mod App
pub mod Tests
