-- ===== src/Repository/World/Handlers.antt =====
-- Rules for the metrics and for actions whose errors are replaced, handled or dropped.
use disbursment_api.Base.{Bool, true, false}
use disbursment_api.Failure.{Failure, Result, ok, err}
use disbursment_api.Repository.Tables.{Tables}
use disbursment_api.Repository.World.{
  World, Env, Action, Metric, record_metric, map_error, mapping_error, recover, catch, ignore_error,
  go_on, attempt,
}
use disbursment_api.Repository.World.Rules.{Condition, Ends, Triple}

pub record_metric-Triple :
    {env : Env} {F : Tables → Type 0} {P : Condition} (collector : Bool) (metric : Metric)
    → Triple env F P (record_metric collector metric) (λ _. P)
unfolding record_metric
record_metric-Triple true metric = record { run = λ w p. p }
record_metric-Triple false metric = record { run = λ w p. p }

module _ {A : Type 0} {env : Env} {F : Tables → Type 0} {P : Condition} {Q : A → Condition}
    (m : Action A) (t : Triple env F P m Q) where
  mapped-Ends :
      (f : Failure → Failure) (o : Result A × World) → Ends Q F o → Ends Q F (map_error f o)
  mapped-Ends f (ok a, w) h = h
  mapped-Ends f (err e, w) h = h

  pub mapping_error-Triple : (f : Failure → Failure) → Triple env F P (mapping_error f m) Q
  unfolding mapping_error
  mapping_error-Triple f = record { run = λ w p. mapped-Ends f (m env w) (t.run w p) }

  recover-Ends :
      (f : Failure → Action A)
      → ((e : Failure) → Triple env F (λ c v. F c) (f e) Q)
      → (o : Result A × World) → Ends Q F o
      → Ends Q F (recover o f env)
  recover-Ends f handler (ok a, w) h = h
  recover-Ends f handler (err e, w) h = (handler e).run w h

  -- A handler starts from what an error leaves committed.
  pub catch-Triple :
      (f : Failure → Action A)
      → ((e : Failure) → Triple env F (λ c v. F c) (f e) Q)
      → Triple env F P (catch m f) Q
  unfolding catch
  catch-Triple f handler = record { run = λ w p. recover-Ends f handler (m env w) (t.run w p) }

  ignored-Ends :
      ((a : A) (c v : Tables) → Q a c v → F c)
      → (o : Result A × World) → Ends Q F o
      → F o.1.committed
  ignored-Ends close (ok a, w) h = close a w.committed w.view h
  ignored-Ends close (err e, w) h = h

  pub ignore_error-Triple :
      ((a : A) (c v : Tables) → Q a c v → F c) → Triple env F P (ignore_error m) (λ _ c v. F c)
  unfolding ignore_error
  ignore_error-Triple close = record { run = λ w p. ignored-Ends close (m env w) (t.run w p) }

gone_on-Ends :
    {A B : Type 0} (env : Env) (F : Tables → Type 0) (Mid : A → Condition) (Q : B → Condition)
    (k : Result A → Action B)
    → ((a : A) → Triple env F (Mid a) (k (ok a)) Q)
    → ((e : Failure) → Triple env F (λ c v. F c) (k (err e)) Q)
    → (o : Result A × World) → Ends Mid F o
    → Ends Q F (go_on o k env)
gone_on-Ends env F Mid Q k good bad (ok a, w) h = (good a).run w h
gone_on-Ends env F Mid Q k good bad (err e, w) h = (bad e).run w h

module _ {A B : Type 0} {env : Env} {F : Tables → Type 0} {P : Condition} {Mid : A → Condition}
    {Q : B → Condition} (m : Action A) (k : Result A → Action B) where
  -- What comes after an error starts from what the error leaves committed.
  pub attempt-Triple :
      Triple env F P m Mid
      → ((a : A) → Triple env F (Mid a) (k (ok a)) Q)
      → ((e : Failure) → Triple env F (λ c v. F c) (k (err e)) Q)
      → Triple env F P (attempt m k) Q
  unfolding attempt
  attempt-Triple t good bad = record {
    run = λ w p. gone_on-Ends env F Mid Q k good bad (m env w) (t.run w p);
  }
