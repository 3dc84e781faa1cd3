-- ===== src/Service/Disbursement/Once.antt =====
-- internal/service/disbursement/service.go, `Create`: a request that is made again gets the response of
-- the first, and makes no second disbursement.
use disbursment_api.Base.{
  ℕ, ◌+◌, ◌<◌, ◌≡◌, refl, ◌∙◌, true, false, none, some, find, ltb, ◌==◌, arith,
}
use disbursment_api.Base.Appending.{find-append_new}
use disbursment_api.Base.Int.{ℤ}
use disbursment_api.Base.Text.{Text, runes}
use disbursment_api.Failure.{ok}
use disbursment_api.Domain.Disbursement.{CreateDisbursementInput}
use disbursment_api.Domain.Idempotency.{IdempotencyClaimResult, ReplayResponse, claim_replayed}
use disbursment_api.Repository.Disbursements.{user_exists}
use disbursment_api.Repository.IdempotencyKeys
use disbursment_api.Repository.IdempotencyKeys.{
  at_scope, new_claim, as_stored, complete_row, classify_claim, replay_response,
}
use disbursment_api.Repository.IdempotencyKeys.Granting.{
  same_number, same_scope-same, acquire-decided,
}
use disbursment_api.Repository.Tables.{Tables}
use disbursment_api.Repository.World.{Env, World}
use disbursment_api.Repository.World.Quiet.{
  Quiet, Yields, pure-Yields, lift-Yields, bind-Yields, record_metric-Yields, mapping_error-Yields,
}
use disbursment_api.Service.Disbursement.{
  Service, Readings, CreateResult, endpoint, new_disbursement, completion_of, created,
  claim_and_create, create,
}
use disbursment_api.Service.Disbursement.Granted
use disbursment_api.Service.Disbursement.Granted.{
  Computed, Fresh, scope_of, request, claim_request-request, request-Fits, create-Yields,
}
use disbursment_api.Service.Idempotency
use disbursment_api.Service.Idempotency.{claim_request}

module _ {env : Env} (quiet : Quiet env) (s : Service) (r r' : Readings)
    (actor_id request_id request_id' : ℕ) (key_value : Text) (input : CreateDisbursementInput)
    (fee : ℤ) (code : Text) (key print claim_id claim_id' : ℕ) (body : Text) (c : Tables)
    (actor_set : (actor_id == 0) ≡ false) (known : user_exists actor_id c.users ≡ true)
    (first : Computed s r key_value input fee code key print claim_id)
    (again : Computed s r' key_value input fee code key print claim_id')
    (fresh : Fresh s r actor_id request_id key (new_disbursement r actor_id input fee code) body c)
    (in_time : r'.claim_now < r.claim_now + s.coordinator.replay_ttl) where
  abbrev after : Tables
  after =
      Granted.after_create quiet s r actor_id request_id key_value input fee code key print claim_id
        body c actor_set known first

  abbrev stored : ReplayResponse
  stored = record {
    status_code = 201;
    body = s.coordinator.codec.jsonb body;
    disbursement_id = r.disbursement_id;
  }

  abbrev replayed : IdempotencyClaimResult
  replayed = record {
    outcome = claim_replayed;
    claim_id = 0;
    replay = some stored;
    retry_after = 0;
  }

  abbrev replay_result : CreateResult
  replay_result = record { disbursement = none; is_replay = true; replay_response = some stored }

  there :
      find (at_scope (scope_of actor_id key)) after.idempotency_keys
      ≡ some (
          Granted.finished quiet s r actor_id request_id key_value input fee code key print claim_id
            body c actor_set known first)
  unfolding complete_row new_claim
  there =
      find-append_new (at_scope (scope_of actor_id key)) c.idempotency_keys _ fresh.new_key
        (same_scope-same (scope_of actor_id key))

  decided :
      classify_claim s.coordinator.codec.json_valid
        (Granted.finished quiet s r actor_id request_id key_value input fee code key print claim_id
          body c actor_set known first)
        (request s r' actor_id key print claim_id')
      ≡ some replayed
  unfolding classify_claim replay_response complete_row as_stored new_claim completion_of
      new_disbursement
  decided =
      let timely : ltb r'.claim_now (r.claim_now + s.coordinator.replay_ttl) ≡ true =
        ground arith in
      rw timely (rw (same_number print) (rw fresh.stored_json refl))

  claim-Yields :
      (v : Tables)
      → Yields env after v
          (Idempotency.claim s.coordinator actor_id
            (runes "POST")
            endpoint
            key_value
            (s.input_text input)
            r'.claim_id
            r'.claim_now)
          replayed
          after
          after
  unfolding Idempotency.claim
  claim-Yields v =
      let fits =
        request-Fits s r' actor_id key print claim_id' after actor_set again.key_set again.claim_set
          again.lease again.replay known in
      let answered : Yields env after v
          (IdempotencyKeys.acquire s.coordinator.codec.json_valid
            (claim_request s.coordinator actor_id endpoint key print claim_id' r'.claim_now))
          replayed after after =
        rw (claim_request-request s r' actor_id key print claim_id') (
          acquire-decided quiet s.coordinator.codec.json_valid
            (request s r' actor_id key print claim_id') after v _ replayed fits there decided) in
      bind-Yields _ (lift-Yields again.parsed) (
        bind-Yields _ (lift-Yields again.printed) (
          bind-Yields _ (lift-Yields again.generated) (
            bind-Yields _ answered (
              bind-Yields _ (record_metric-Yields quiet s.coordinator.collector _ after after)
                pure-Yields))))

  repeated-Yields :
      (v : Tables)
      → Yields env after v
          (create s r' actor_id request_id' key_value input)
          replay_result
          after
          after
  unfolding create claim_and_create
  repeated-Yields v = bind-Yields _ (lift-Yields again.valid) (
      bind-Yields _ (lift-Yields again.has_fee) (
        bind-Yields _ (lift-Yields again.canonical) (
          bind-Yields _ (lift-Yields again.parsed)
            (bind-Yields _ (mapping_error-Yields _ (claim-Yields v)) pure-Yields))))

  -- Let every exchange with the database work and no other session commit. A request with a valid input
  -- without U+0000, of a user that exists, under a key that the user has not used, with fresh ids, makes a disbursement:
  -- it is inserted as pending, with its audit event, and the claim on the key is completed with the
  -- response. The same request made again before the key expires, at a time less than the replay time
  -- after the first, and from any state of the program, is answered with that response, its body as the
  -- JSONB column hands it back, and leaves the committed tables as they are: there is no second
  -- disbursement.
  pub create-once :
      (w w' : World)
      → w.committed ≡ c
      → w'.committed ≡ (create s r actor_id request_id key_value input env w).1.committed
      → ((create s r actor_id request_id key_value input env w).0
          ≡ ok (created (new_disbursement r actor_id input fee code)))
        × ((create s r actor_id request_id key_value input env w).1.committed ≡ after)
        × ((create s r' actor_id request_id' key_value input env w').0 ≡ ok replay_result)
        × ((create s r' actor_id request_id' key_value input env w').1.committed ≡ after)
  create-once w w' start continued =
      let made =
        (create-Yields quiet s r actor_id request_id key_value input fee code key print claim_id
            body c actor_set known first fresh w.view).run
          w start refl in
      let repeated = (repeated-Yields w'.view).run w' (continued ∙ made.committed) refl in
      (made.value, made.committed, repeated.value, repeated.committed)
