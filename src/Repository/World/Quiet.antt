-- ===== src/Repository/World/Quiet.antt =====
-- Runs of database actions while every exchange works and no other session commits: what an action
-- returns, and what it makes of the committed tables and of the view.
use disbursment_api.Base.{ℕ, ◌≡◌, refl, ◌∙◌, Bool, true, false}
use disbursment_api.Failure.{Failure, Result, ok}
use disbursment_api.Repository.Tables.{Tables}
use disbursment_api.Repository.World.{
  Sql, returned, Statement, World, Env, works, Action, pure, lift, continue, ◌>>=◌, query_tx,
  query_pool, answer_pool, observe, exec_tx, exec_pool, go_on, attempt, inspect_pool,
  within_transaction, begin, commit, finish, Metric, record_metric, mapping_error, map_error, catch,
  recover,
}

pub record Quiet (env : Env) : Type 0 where
  pub answers : (n : ℕ) → env.exchange n ≡ works
  pub alone : (n : ℕ) (t : Tables) → env.others n t ≡ t

-- What an action leaves behind.
pub record Ended {A : Type 0} (a : A) (c v : Tables) (result : Result A × World) : Type 0 where
  pub value : result.0 ≡ ok a
  pub committed : result.1.committed ≡ c
  pub view : result.1.view ≡ v

pub record Yields {A : Type 0} (env : Env) (c v : Tables) (m : Action A) (a : A) (c' v' : Tables)
    : Type 0 where
  pub run : (w : World) → w.committed ≡ c → w.view ≡ v → Ended a c' v' (m env w)

pub pure-Yields : {A : Type 0} {env : Env} {c v : Tables} {a : A} → Yields env c v (pure a) a c v
pure-Yields = record { run = λ w hc hv. record { value = refl; committed = hc; view = hv } }

pub lift-Yields :
    {A : Type 0} {env : Env} {c v : Tables} {r : Result A} {a : A}
    → r ≡ ok a
    → Yields env c v (lift r) a c v
lift-Yields h = record { run = λ w hc hv. record { value = h; committed = hc; view = hv } }

continue-Ended :
    {A B : Type 0} (env : Env) (c v c' v' : Tables) (f : A → Action B) (a : A) (b : B)
    (r : Result A) (w : World)
    → r ≡ ok a
    → w.committed ≡ c
    → w.view ≡ v
    → Yields env c v (f a) b c' v'
    → Ended b c' v' (continue r f env w)
continue-Ended env c v c' v' f a b r w value hc hv rest = rw value (rest.run w hc hv)

pub bind-Yields :
    {A B : Type 0} {env : Env} {c v c₁ v₁ c₂ v₂ : Tables} {m : Action A} {a : A} {b : B}
    (f : A → Action B)
    → Yields env c v m a c₁ v₁
    → Yields env c₁ v₁ (f a) b c₂ v₂
    → Yields env c v (m >>= f) b c₂ v₂
unfolding ◌>>=◌
bind-Yields {A} {B} {env} {c} {v} {c₁} {v₁} {c₂} {v₂} {m} {a} {b} f first rest = record {
  run = λ w hc hv.
      let done = first.run w hc hv in
      continue-Ended env c₁ v₁ c₂ v₂ f a b (m env w).0 (m env w).1 done.value done.committed
        done.view rest;
}

module _ {env : Env} (quiet : Quiet env) where
  pub exec_tx-Yields :
      {A : Type 0} (q : Statement A) (c v : Tables) (a : A) (v' : Tables)
      → q v ≡ (returned a, v')
      → Yields env c v (exec_tx q) a c v'
  unfolding exec_tx query_tx
  exec_tx-Yields q c v a v' h = record {
    run = λ w hc hv.
        rw (quiet.answers w.step)
          (rw hv (rw h record { value = refl; committed = hc; view = refl }));
  }

  pub exec_pool-Yields :
      {A : Type 0} (q : Statement A) (c v : Tables) (a : A) (t : Tables)
      → q c ≡ (returned a, t)
      → Yields env c v (exec_pool q) a t t
  unfolding exec_pool query_pool answer_pool
  exec_pool-Yields q c v a t h = record {
    run = λ w hc hv. rw (quiet.alone w.step w.committed) (
        rw (quiet.answers w.step)
          (rw hc (rw h (record { value = refl; committed = refl; view = refl }))));
  }

  pub inspect_pool-Yields :
      {A B : Type 0} (q : Statement A) (k : Sql A → Action B) (c v : Tables) (r : Sql A)
      (t : Tables) (b : B) (c' v' : Tables)
      → q c ≡ (r, t)
      → Yields env t t (k r) b c' v'
      → Yields env c v (inspect_pool q k) b c' v'
  unfolding inspect_pool query_pool answer_pool
  inspect_pool-Yields q k c v r t b c' v' h rest = record {
    run = λ w hc hv.
        rw (quiet.alone w.step w.committed)
          (rw (quiet.answers w.step) (rw hc (rw h (rest.run _ refl refl))));
  }

  finish-Ended :
      {A : Type 0} (a : A) (v : Tables) (r : Result A) (w : World)
      → r ≡ ok a
      → w.view ≡ v
      → Ended a v v (finish (r, w) env)
  unfolding commit
  finish-Ended a v r w value hv =
      rw value (rw (quiet.answers w.step) (record { value = refl; committed = hv; view = hv }))

  pub within_transaction-Yields :
      {A : Type 0} {operation : Action A} {c v v' : Tables} {a : A}
      → Yields env c c operation a c v'
      → Yields env c v (within_transaction operation) a v' v'
  unfolding within_transaction begin commit
  within_transaction-Yields {A} {operation} {c} {v} {v'} {a} h = record {
    run = λ w hc hv.
        let begun = observe env w in
        let seen = quiet.alone w.step w.committed ∙ hc in
        let done = h.run begun seen seen in
        rw (quiet.answers w.step)
          (finish-Ended a v' (operation env begun).0 (operation env begun).1 done.value done.view);
  }

  pub record_metric-Yields :
      (collector : Bool) (metric : Metric) (c v : Tables)
      → Yields env c v (record_metric collector metric) tt c v
  unfolding record_metric
  record_metric-Yields true metric c v = record {
    run = λ w hc hv. record { value = refl; committed = hc; view = hv };
  }
  record_metric-Yields false metric c v = record {
    run = λ w hc hv. record { value = refl; committed = hc; view = hv };
  }

map_error-Ended :
    {A : Type 0} (f : Failure → Failure) (a : A) (c v : Tables) (r : Result A) (w : World)
    → r ≡ ok a
    → w.committed ≡ c
    → w.view ≡ v
    → Ended a c v (map_error f (r, w))
map_error-Ended f a c v r w value hc hv =
    rw value (record { value = refl; committed = hc; view = hv })

recover-Ended :
    {A : Type 0} (env : Env) (f : Failure → Action A) (a : A) (c v : Tables) (r : Result A)
    (w : World)
    → r ≡ ok a
    → w.committed ≡ c
    → w.view ≡ v
    → Ended a c v (recover (r, w) f env)
recover-Ended env f a c v r w value hc hv =
    rw value (record { value = refl; committed = hc; view = hv })

pub mapping_error-Yields :
    {A : Type 0} {env : Env} {m : Action A} {c v c' v' : Tables} {a : A} (f : Failure → Failure)
    → Yields env c v m a c' v'
    → Yields env c v (mapping_error f m) a c' v'
unfolding mapping_error
mapping_error-Yields {A} {env} {m} {c} {v} {c'} {v'} {a} f h = record {
  run = λ w hc hv.
      let done = h.run w hc hv in
      map_error-Ended f a c' v' (m env w).0 (m env w).1 done.value done.committed done.view;
}

pub catch-Yields :
    {A : Type 0} {env : Env} {m : Action A} {c v c' v' : Tables} {a : A} (f : Failure → Action A)
    → Yields env c v m a c' v'
    → Yields env c v (catch m f) a c' v'
unfolding catch
catch-Yields {A} {env} {m} {c} {v} {c'} {v'} {a} f h = record {
  run = λ w hc hv.
      let done = h.run w hc hv in
      recover-Ended env f a c' v' (m env w).0 (m env w).1 done.value done.committed done.view;
}

gone_on-Ended :
    {A B : Type 0} (env : Env) (c v c' v' : Tables) (k : Result A → Action B) (a : A) (b : B)
    (r : Result A) (w : World)
    → r ≡ ok a
    → w.committed ≡ c
    → w.view ≡ v
    → Yields env c v (k (ok a)) b c' v'
    → Ended b c' v' (go_on (r, w) k env)
gone_on-Ended env c v c' v' k a b r w value hc hv rest = rw value (rest.run w hc hv)

pub attempt-Yields :
    {A B : Type 0} {env : Env} {m : Action A} {c v c₁ v₁ c₂ v₂ : Tables} {a : A} {b : B}
    (k : Result A → Action B)
    → Yields env c v m a c₁ v₁
    → Yields env c₁ v₁ (k (ok a)) b c₂ v₂
    → Yields env c v (attempt m k) b c₂ v₂
unfolding attempt
attempt-Yields {A} {B} {env} {m} {c} {v} {c₁} {v₁} {c₂} {v₂} {a} {b} k first rest = record {
  run = λ w hc hv.
      let done = first.run w hc hv in
      gone_on-Ended env c₁ v₁ c₂ v₂ k a b (m env w).0 (m env w).1 done.value done.committed
        done.view rest;
}
