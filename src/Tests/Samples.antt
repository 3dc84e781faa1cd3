-- ===== src/Tests/Samples.antt =====
-- Concrete values of the program's data: a pending disbursement of one user, a claim, a session, an
-- outbox, and an environment that loses the reply of one exchange.
use disbursment_api.Base.{true, false, none, some, [], ◌∷◌, length, if◌then◌else◌, ◌==◌}
use disbursment_api.Base.Int.{pos}
use disbursment_api.Base.Text.{Text, runes, text_eq}
use disbursment_api.Failure.{ok}
use disbursment_api.Domain.Disbursement.{
  CreateDisbursementInput, Disbursement, Decision, pending, approved,
}
use disbursment_api.Domain.Idempotency.{
  IdempotencyScope, IdempotencyClaimRequest, IdempotencyCompletion, in_progress, completed,
}
use disbursment_api.Domain.Audit.{AuditEvent, Printer}
use disbursment_api.Repository.Tables.{
  DbDisbursement, StoredClaim, RefreshSession, User, OutboxRow, Tables,
}
use disbursment_api.Repository.Disbursements.Listing.{DisbursementFilter, Server}
use disbursment_api.Repository.World.{Env, World, works, reply_lost, server_error}
use disbursment_api.Service.Idempotency.{Coordinator}
use disbursment_api.Service.Disbursement.{Service, Readings}
use disbursment_api.Service.Relay.{Relay, Moment}
use disbursment_api.Service.Auth.{Auth, AuthReadings}

abbrev pub sample_user : User
sample_user = record {
  id = 7;
  username = runes "ani";
  password_hash = runes "hash";
  role = runes "ADMIN";
}

-- A list of everything, one row on a page, in the order of the table.
abbrev pub sample_filter : DisbursementFilter
sample_filter = record {
  page = pos 1;
  limit = pos 1;
  status = none;
  search = [];
  sort_by = [];
  sort_order = [];
  date_range = none;
}

abbrev pub sample_server : Server
sample_server = record { ilike = text_eq; arrange = λ column ascending rows. rows }

abbrev pub sample_input : CreateDisbursementInput
sample_input = record {
  recipient_name = runes "Budi";
  account_number = runes "1234567890";
  bank_code = runes "BCA";
  amount = pos 5000000;
  note = [];
}

abbrev pub sample_disbursement : Disbursement
sample_disbursement = record {
  id = 1;
  recipient_name = runes "Budi";
  account_number = runes "1234567890";
  bank_code = runes "BCA";
  amount = pos 5000000;
  admin_fee = pos 5000;
  status = pending;
  note = [];
  created_by = 7;
  decided_by = 0;
  decision_note = [];
  decided_at = none;
  deleted_at = none;
  created_at = 100;
  updated_at = 100;
}

abbrev pub sample_row : DbDisbursement
sample_row = record {
  id = 1;
  recipient_name = runes "Budi";
  account_number = runes "1234567890";
  bank_code = runes "BCA";
  amount = pos 5000000;
  admin_fee = pos 5000;
  status = pending;
  note = none;
  created_by = 7;
  decided_by = none;
  decision_note = none;
  decided_at = none;
  deleted_at = none;
  created_at = 100;
  updated_at = 100;
}

abbrev pub sample_event : AuditEvent
sample_event = record {
  event_id = 21;
  entity_type = runes "disbursement";
  entity_id = 1;
  action = runes "disbursement.created";
  actor_id = 7;
  request_id = 31;
  before_data = none;
  after_data = none;
  occurred_at = 100;
}

abbrev pub sample_outbox_row : OutboxRow
sample_outbox_row = record {
  event = sample_event;
  delivered = false;
  available_at = 100;
  delivered_at = none;
  delivery_attempts = 0;
  last_delivery_error = none;
}

abbrev pub sample_scope : IdempotencyScope
sample_scope = record { user_id = 7; endpoint = runes "/disbursements"; key = 5 }

abbrev pub sample_claim : StoredClaim
sample_claim = record {
  scope = sample_scope;
  request_hash = 11;
  state = in_progress;
  claim_id = 41;
  lease_until = 200;
  expires_at = 300;
  disbursement_id = none;
  response_status = none;
  response_body = none;
}

abbrev pub completed_claim : StoredClaim
completed_claim = record sample_claim {
  state = completed;
  disbursement_id = some 1;
  response_status = some 201;
  response_body = some (runes "null");
}

abbrev pub sample_request : IdempotencyClaimRequest
sample_request = record {
  scope = sample_scope;
  fingerprint = 11;
  claim_id = 42;
  lease_until = 250;
  expires_at = 350;
  now = 150;
}

abbrev pub sample_completion : IdempotencyCompletion
sample_completion = record {
  scope = sample_scope;
  claim_id = 42;
  response = record { status_code = 201; body = runes "null"; disbursement_id = 1 };
  completed_at = 160;
}

abbrev pub sample_session : RefreshSession
sample_session = record {
  id = 51;
  user_id = 7;
  token_hash = runes "aa";
  expires_at = 500;
  revoked_at = none;
  replaced_by_id = none;
}

abbrev pub next_session : RefreshSession
next_session = record sample_session { id = 52; token_hash = runes "bb" }

abbrev pub sample_tables : Tables
sample_tables = record {
  disbursements = sample_row ∷ [];
  idempotency_keys = sample_claim ∷ [];
  refresh_sessions = sample_session ∷ [];
  users = sample_user ∷ [];
  audit_outbox = sample_outbox_row ∷ [];
  audit_logs = [];
}

-- The tables once the claim is completed.
abbrev pub completed_tables : Tables
completed_tables = record sample_tables { idempotency_keys = completed_claim ∷ [] }

abbrev pub sample_world : World
sample_world = record { committed = sample_tables; view = sample_tables; step = 0; recorded = [] }

-- The reply of the tenth exchange is lost; no other session is at work.
abbrev pub sample_env : Env
sample_env = record {
  exchange = λ n. if n == 9 then reply_lost (server_error "08006") else works;
  others = λ n t. t;
}

abbrev pub sample_decision : Decision
sample_decision = record { status = approved; actor_id = 7; note = [] }

-- A space behind each comma, as PostgreSQL prints JSONB.
abbrev pub spaced : Text → Text
spaced [] = []
spaced (c ∷ s) = if c == 44 then 44 ∷ 32 ∷ spaced s else c ∷ spaced s

abbrev pub sample_coordinator : Coordinator
sample_coordinator = record {
  codec = record {
    uuids = record { parse = λ s. some 6; version = λ key. 4 };
    sha256 = λ s. length s;
    canonical_json = λ s. some s;
    json_valid = λ s. true;
    jsonb = spaced;
  };
  collector = true;
  lease_ttl = 30;
  replay_ttl = 90;
}

abbrev pub sample_printer : Printer
sample_printer = record { uuid_text = λ id. runes "id"; time_text = λ t. runes "time" }

abbrev pub sample_service : Service
sample_service = record {
  coordinator = sample_coordinator;
  collector = true;
  printer = sample_printer;
  input_text = λ input. runes "null";
  response_text = λ d. runes "[1,2]";
}

abbrev pub sample_readings : Readings
sample_readings = record {
  now = 400;
  store_now = 401;
  claim_now = 399;
  server_now = 402;
  disbursement_id = 2;
  event_id = 22;
  claim_id = ok 43;
}

abbrev pub sample_relay : Relay
sample_relay = record {
  collector = true;
  lease = pos 100;
  warning_age = pos 60;
  critical_age = pos 120;
  outbox_retention = pos 1000;
  locked = λ id. false;
  error_text = λ e. "error";
}

abbrev pub sample_moment : Moment
sample_moment = record { context_error = none; now = 300 }

abbrev pub sample_auth : Auth
sample_auth = record {
  collector = true;
  matches = λ hash password. true;
  sign = λ key_id secret claims. ok (runes "signed");
  hash_token = λ token. token;
  key_id = runes "v1";
  secret = runes "secret";
  issuer = runes "disbursement-api";
  audience = runes "disbursement-api-users";
  access_token_ttl = 900;
  refresh_token_ttl = 9000;
}

abbrev pub sample_auth_readings : AuthReadings
sample_auth_readings = record {
  now = 200;
  refresh_token = runes "cc";
  session_id = 53;
  server_now = 201;
}
