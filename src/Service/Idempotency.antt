-- ===== src/Service/Idempotency.antt =====
-- internal/service/idempotency: fingerprints, and the coordinator over the store of keys.
pub mod Prints
use Prim.Native.String.{String}
use disbursment_api.Base.{
  ℕ, ◌+◌, Bool, ◌||◌, Option, none, some, List, [], ◌∷◌, ◌++◌, if◌then◌else◌,
}
use disbursment_api.Base.Text.{Text, is_empty, trim_space, to_upper}
use disbursment_api.Failure.{Failure, raw, plain, Result, ok, err}
use disbursment_api.Domain.Idempotency.{
  IdempotencyScope, IdempotencyClaimRequest, ReplayResponse, IdempotencyClaimResult,
  IdempotencyCompletion, ClaimOutcome, no_outcome, Uuids, parse_idempotency_key,
}
use disbursment_api.Repository.World.{
  Action, pure, lift, ◌>>=◌, ◌>>◌, record_metric, idempotency_claim,
}
use disbursment_api.Repository.IdempotencyKeys

-- What the coordinator calls: google/uuid, crypto/sha256 as a number, `canonicalJSON` of a JSON text,
-- encoding/json's Valid, and which text a JSONB column hands back for one that was written to it.
pub record Codec : Type 0 where
  pub uuids : Uuids
  pub sha256 : List ℕ → ℕ
  pub canonical_json : Text → Option Text
  pub json_valid : Text → Bool
  pub jsonb : Text → Text

pub record Coordinator : Type 0 where
  pub codec : Codec
  pub collector : Bool
  pub lease_ttl : ℕ
  pub replay_ttl : ℕ

abbrev pub or_plain : {A : Type 0} → String → Option A → Result A
or_plain message none = err (raw (plain message))
or_plain message (some a) = ok a

-- The bytes that are hashed, with a zero byte between the parts.
unfoldable pub fingerprint_bytes : Text → Text → Text → Text
fingerprint_bytes method endpoint payload = method ++ (0 ∷ (endpoint ++ (0 ∷ payload)))

abbrev hash_parts : (List ℕ → ℕ) → Text → Text → Text → Result ℕ
hash_parts sha256 method endpoint payload =
    if is_empty method || is_empty endpoint
    then err (raw (plain "method and endpoint are required for idempotency fingerprint"))
    else ok (sha256 (fingerprint_bytes method endpoint payload))

abbrev hash_payload : (List ℕ → ℕ) → Text → Text → Result Text → Result ℕ
hash_payload sha256 method endpoint (err e) = err e
hash_payload sha256 method endpoint (ok payload) =
    hash_parts sha256 (to_upper (trim_space method)) (trim_space endpoint) payload

-- `payload` is the JSON text of the value.
unfoldable pub fingerprint : Codec → Text → Text → Text → Result ℕ
fingerprint codec method endpoint payload =
    hash_payload codec.sha256 method endpoint
      (or_plain "marshal idempotency payload" (codec.canonical_json payload))

unfoldable pub claim_request : Coordinator → ℕ → Text → ℕ → ℕ → ℕ → ℕ → IdempotencyClaimRequest
claim_request coordinator user_id endpoint key print claim_id now = record {
  scope = record { user_id = user_id; endpoint = trim_space endpoint; key = key };
  fingerprint = print;
  claim_id = claim_id;
  lease_until = now + coordinator.lease_ttl;
  expires_at = now + coordinator.replay_ttl;
  now = now;
}

abbrev pub record_claim :
    Bool → IdempotencyClaimResult → ClaimOutcome → Action IdempotencyClaimResult
record_claim collector result no_outcome = pure result
record_claim collector result outcome =
    record_metric collector (idempotency_claim outcome) >> pure result

-- `Claim`: `claim_id` is what the generator answers, `now` what the clock reads.
unfoldable pub claim :
    Coordinator → ℕ → Text → Text → Text → Text → Result ℕ → ℕ → Action IdempotencyClaimResult
claim coordinator user_id method endpoint key_value payload claim_id now =
    lift (parse_idempotency_key coordinator.codec.uuids key_value) >>= λ key.
    lift (fingerprint coordinator.codec method endpoint payload) >>= λ print.
    lift claim_id >>= λ id.
    IdempotencyKeys.acquire coordinator.codec.json_valid
      (claim_request coordinator user_id endpoint key print id now)
    >>= λ result. record_claim coordinator.collector result result.outcome

unfoldable pub verify_ownership : IdempotencyScope → ℕ → Action (Unit {0})
verify_ownership scope claim_id = IdempotencyKeys.verify_ownership scope claim_id

unfoldable pub complete : Coordinator → IdempotencyCompletion → Action (Unit {0})
complete coordinator completion =
    lift
      (or_plain "idempotency payload" (coordinator.codec.canonical_json completion.response.body))
    >>= λ body.
        IdempotencyKeys.complete coordinator.codec.jsonb coordinator.codec.json_valid
          (record completion { response = record completion.response { body = body } })

unfoldable pub release : IdempotencyScope → ℕ → Action (Unit {0})
release scope claim_id = IdempotencyKeys.release scope claim_id
