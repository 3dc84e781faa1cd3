-- ===== src/Tests/OnceTests.antt =====
-- The requests of internal/service/disbursement/service.go that come twice, at concrete inputs.
use disbursment_api.Base.{ℕ, false, ◌==◌, ◌≡◌, refl, none, some, [], arith, true}
use disbursment_api.Base.Int.{pos}
use disbursment_api.Base.Text.{runes, trim_space, to_upper, byte_len}
use disbursment_api.Failure.{ok}
use disbursment_api.Domain.Disbursement.{
  validate_input, calculate_admin_fee, canonical_bank_code, Disbursement, check_bank_code,
  valid_account_number,
}
use disbursment_api.Domain.Idempotency.{parse_idempotency_key}
use disbursment_api.Repository.Tables.{Tables}
use disbursment_api.Repository.World.{Env, World, works}
use disbursment_api.Repository.World.Quiet.{Quiet}
use disbursment_api.Repository.Disbursements.{texts_storable, to_row}
use disbursment_api.Service.Disbursement.{Readings, CreateResult, create, created, new_disbursement}
use disbursment_api.Service.Disbursement.Granted
use disbursment_api.Service.Disbursement.Granted.{Computed, Fresh}
use disbursment_api.Service.Disbursement.Once.{create-once}
use disbursment_api.Service.Idempotency.{fingerprint, fingerprint_bytes}
use disbursment_api.Tests.Samples.{
  sample_tables, sample_world, sample_service, sample_readings, sample_input,
}

-- The environment in which every exchange works.
abbrev pub quiet_env : Env
quiet_env = record { exchange = λ n. works; others = λ n t. t }

pub quiet_env-Quiet : Quiet quiet_env
quiet_env-Quiet = record { answers = λ n. refl; alone = λ n t. refl }

abbrev empty_tables : Tables
empty_tables = record sample_tables { disbursements = []; idempotency_keys = []; audit_outbox = [] }

abbrev empty_world : World
empty_world = record sample_world { committed = empty_tables; view = empty_tables }

abbrev later_readings : Readings
later_readings = record sample_readings { claim_now = 410; claim_id = ok 44 }

Computed-readings :
    (r : Readings) (claim_id : ℕ)
    → r.claim_id ≡ ok claim_id
    → (claim_id == 0) ≡ false
    → Computed sample_service r (runes "key") sample_input (pos 5000) (runes "BCA") 6 24 claim_id
unfolding validate_input calculate_admin_fee canonical_bank_code parse_idempotency_key fingerprint
    fingerprint_bytes valid_account_number byte_len check_bank_code to_upper trim_space
Computed-readings r claim_id generated claim_set = record {
  valid = refl;
  has_fee = refl;
  canonical = refl;
  parsed = refl;
  printed = refl;
  generated = generated;
  lease = omega arith;
  replay = omega arith;
  key_set = refl;
  claim_set = claim_set;
}

sample-Computed :
    Computed sample_service sample_readings
      (runes "key")
      sample_input
      (pos 5000)
      (runes "BCA")
      6
      24
      43
sample-Computed = Computed-readings sample_readings 43 refl refl

later-Computed :
    Computed sample_service later_readings
      (runes "key")
      sample_input
      (pos 5000)
      (runes "BCA")
      6
      24
      44
later-Computed = Computed-readings later_readings 44 refl refl

sample-Fresh :
    Fresh sample_service sample_readings 7 21 6
      (new_disbursement sample_readings 7 sample_input (pos 5000) (runes "BCA"))
      (runes "[1,2]")
      empty_tables
unfolding texts_storable to_row new_disbursement
sample-Fresh = record {
  new_key = refl;
  new_id = refl;
  new_event = refl;
  texts = refl;
  request_set = refl;
  event_set = refl;
  id_set = refl;
  now_set = refl;
  written = refl;
  json = refl;
  stored_json = refl;
}

abbrev made_world : World
made_world = record sample_world {
  committed =
      ((create sample_service sample_readings 7 21 (runes "key") sample_input quiet_env
        empty_world).1
      ).committed;
}

abbrev made : Disbursement
made = new_disbursement sample_readings 7 sample_input (pos 5000) (runes "BCA")

abbrev made_tables : Tables
made_tables =
    Granted.after_create quiet_env-Quiet sample_service sample_readings 7 21 (runes "key")
      sample_input (pos 5000) (runes "BCA") 6 24 43 (runes "[1,2]") empty_tables refl refl
      sample-Computed

abbrev replayed : CreateResult
replayed = record {
  disbursement = none;
  is_replay = true;
  replay_response = some (record { status_code = 201; body = runes "[1, 2]"; disbursement_id = 2 });
}

create-once_example :
    ((create sample_service sample_readings 7 21 (runes "key") sample_input quiet_env empty_world).0
      ≡ ok (created made))
    × (made_world.committed ≡ made_tables)
    × ((create sample_service later_readings 7 22 (runes "key") sample_input quiet_env made_world).0
        ≡ ok replayed)
    × (((create sample_service later_readings 7 22
            (runes "key")
            sample_input
            quiet_env
            made_world).1
          ).committed
        ≡ made_tables)
create-once_example =
    create-once quiet_env-Quiet sample_service sample_readings later_readings 7 21 22 (runes "key")
      sample_input (pos 5000) (runes "BCA") 6 24 43 44 (runes "[1,2]") empty_tables refl refl
      sample-Computed later-Computed sample-Fresh (omega arith) empty_world made_world refl refl
