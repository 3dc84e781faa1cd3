-- ===== src/App/Exiting.antt =====
-- cmd/api/main.go and internal/app/app.go: what a process leaves behind.
use disbursment_api.Base.{ℕ, suc, ◌≡◌, refl, Bool, true, false, some, arith, Bool-cases, inl, inr}
use disbursment_api.Config.Reading.{Outcome, rejected, accepted, Parsers, Environment}
use disbursment_api.Config.Loading.{Config, load, validate_secret_strength}
use disbursment_api.Config.Secrets.{key_provider_of}
use disbursment_api.Service.Relay.Worker.{Worker, set_at, start_worker, close_stop, stop_worker}
use disbursment_api.App.{
  Startup, failed, ready, Libraries, open_database, new_coordinator, new_auth_service, Application,
  closing, provided, validator_failed, router_failed, assemble, if_strong, new, if_ready, if_loaded,
  Ending, Exit, run, new_worker, main,
}

abbrev after : {A : Type 0} → ℕ → Startup A → ℕ
after n (failed e) = n
after n (ready a) = suc n

-- An error leaves the pools as they were, and what is ready has one more.
record Balanced {A : Type 0} (n : ℕ) (o : Startup A × ℕ) : Type 0 where
  pub kept : o.1 ≡ after n o.0

closing-Balanced :
    {A B : Type 0} (n : ℕ) (m : Startup A) (k : A → Startup B × ℕ)
    → ((a : A) → Balanced n (k a))
    → Balanced n (closing (suc n) m k)
unfolding closing
closing-Balanced n (failed e) k h = record { kept = omega arith }
closing-Balanced n (ready a) k h = h a

open_database-Balanced : (l : Libraries) (n : ℕ) → Balanced n (open_database l n)
unfolding open_database
open_database-Balanced l n = elim (Bool-cases l.opens) [
  | inl opens ↦ elim (Bool-cases l.pings) [
    | inl pings ↦ rw opens (rw pings (record { kept = refl }))
    | inr no_ping ↦ rw opens (rw no_ping (record { kept = omega arith }))
  ]
  | inr closed ↦ rw closed (record { kept = refl })
]

assemble-Balanced :
    (l : Libraries) (c : Config) (n : ℕ) (o : Startup (Unit {0}) × ℕ)
    → Balanced n o
    → Balanced n (assemble l c o)
unfolding assemble
assemble-Balanced l c n (failed e, pools) h = record { kept = h.kept }
assemble-Balanced l c n (ready u, pools) h =
    let one_more : pools ≡ suc n = h.kept in
    let security = c.security in
    rw one_more (
      closing-Balanced n (new_coordinator c.idempotency.lease_ttl c.idempotency.replay_ttl) _
        (λ coordinator.
          closing-Balanced n
            (new_auth_service (key_provider_of c) security.jwt_issuer security.jwt_audience
              security.access_token_ttl security.refresh_token_ttl)
            _
            (λ auth. closing-Balanced n (provided l.validates validator_failed) _ (λ v.
              closing-Balanced n (provided (l.trusts c.http.trusted_proxies) router_failed) _
                (λ r. record { kept = refl })))))

if_strong-Balanced :
    (l : Libraries) (c : Config) (n : ℕ) (o : Outcome (Unit {0})) → Balanced n (if_strong l c n o)
if_strong-Balanced l c n (rejected e) = record { kept = refl }
if_strong-Balanced l c n (accepted u) =
    assemble-Balanced l c n (open_database l n) (open_database-Balanced l n)

-- The pools are as they were before, and the worker has been stopped, without a panic.
pub record Clean (pools : ℕ) (exit : Exit) : Type 0 where
  pub same_pools : exit.pools ≡ pools
  pub stopped : (w : Worker) × (exit.worker ≡ some w) × (w.running ≡ false)

run-Clean :
    (ending : Ending) (stopped_itself : Bool) (pools : ℕ)
    → Clean pools (run ending stopped_itself (suc pools) new_worker)
unfolding run start_worker stop_worker close_stop set_at
run-Clean ending true pools = record { same_pools = omega arith; stopped = (_, refl, refl) }
run-Clean ending false pools = record { same_pools = omega arith; stopped = (_, refl, refl) }

module _ (ending : Ending) (stopped_itself : Bool) (pools : ℕ) where
  if_ready-Clean :
      (o : Startup Application × ℕ)
      → Balanced pools o
      → Clean pools (if_ready ending stopped_itself o)
  if_ready-Clean (failed e, n) h = record {
    same_pools = h.kept;
    stopped = (new_worker, refl, refl);
  }
  if_ready-Clean (ready a, n) h = rw h.kept (run-Clean ending stopped_itself pools)

  if_loaded-Clean :
      (l : Libraries) (o : Outcome Config) → Clean pools (if_loaded l ending stopped_itself pools o)
  unfolding new
  if_loaded-Clean l (rejected e) = record { same_pools = refl; stopped = (new_worker, refl, refl) }
  if_loaded-Clean l (accepted c) =
      if_ready-Clean (new l c pools) (if_strong-Balanced l c pools (validate_secret_strength c))

  -- Whatever the environment says, whatever fails while the process starts, and however it ends, it
  -- leaves no pool of database connections open that it has opened, and no worker of the relay
  -- running, and does not panic over the worker's channel.
  pub main-Clean :
      (parsers : Parsers) (l : Libraries) (env : Environment)
      → Clean pools (main parsers l env ending stopped_itself pools)
  unfolding main
  main-Clean parsers l env = if_loaded-Clean l (load parsers env)
