-- ===== src/Repository/World/Keeps.antt =====
-- Actions that keep an invariant of the tables, whatever the exchanges do and whatever other sessions
-- commit that keeps it too: both what is committed and what the transaction sees satisfy it.
use disbursment_api.Base.{ℕ, Bool, true, false, if◌then◌else◌}
use disbursment_api.Failure.{Failure, Result, ok, err}
use disbursment_api.Repository.Tables.{Tables}
use disbursment_api.Repository.World.{
  World, Sql, returned, failed, Statement, Env, Action, ◌>>=◌, exec_tx, exec_pool, inspect_tx,
  inspect_pool, within_transaction, Metric, record_metric, mapping_error,
}
use disbursment_api.Repository.World.Rules.{
  Ends, Condition, Triple, bind-Triple, pure-Triple, lift-Triple, exec_tx-Triple, exec_pool-Triple,
  inspect_tx-Triple, inspect_pool-Triple, within_transaction-Triple, conseq-Triple, Answered,
}
use disbursment_api.Repository.World.Handlers.{record_metric-Triple, mapping_error-Triple}

abbrev pub Both : (Tables → Type 0) → Condition
Both I c v = I c × I v

abbrev pub Keeps : {A : Type 0} → Env → (Tables → Type 0) → Action A → Type 0
Keeps env I m = Triple env I (Both I) m (λ _. Both I)

-- Other sessions keep the invariant.
abbrev pub Calm : Env → (Tables → Type 0) → Type 0
Calm env I = (n : ℕ) (t : Tables) → I t → I (env.others n t)

-- A statement that keeps the invariant.
abbrev pub Preserves : {A : Type 0} → (Tables → Type 0) → Statement A → Type 0
Preserves I q = (t : Tables) → I t → I (q t).1

answered_both :
    {A : Type 0} (I : Tables → Type 0) (r : Sql A) (c v : Tables)
    → I c
    → I v
    → Answered I (λ _. Both I) r c v
answered_both I (returned a) c v hc hv = (hc, hv)
answered_both I (failed e) c v hc hv = hc

module _ (env : Env) (I : Tables → Type 0) where
  pub raise-Keeps : {A : Type 0} (e : Failure) → Keeps {A = A} env I (λ _ w. (err e, w))
  raise-Keeps e = record { run = λ w p. p.0 }

  pub pure-Keeps : {A : Type 0} (a : A) → Keeps env I (λ _ w. (ok a, w))
  pure-Keeps a = pure-Triple (λ c v p. p)

  pub lift-Keeps : {A : Type 0} (r : Result A) → Keeps env I (λ _ w. (r, w))
  lift-Keeps r = lift-Triple r (λ c v p. p.0) (λ a c v e p. p)

  pub if-Keeps :
      {A : Type 0} (b : Bool) (m n : Action A)
      → Keeps env I m
      → Keeps env I n
      → Keeps env I (if b then m else n)
  if-Keeps true m n hm hn = hm
  if-Keeps false m n hm hn = hn

  pub bind-Keeps :
      {A B : Type 0} (m : Action A) (f : A → Action B)
      → Keeps env I m
      → ((a : A) → Keeps env I (f a))
      → Keeps env I (m >>= f)
  bind-Keeps m f hm hf = bind-Triple hm hf

  pub exec_tx-Keeps : {A : Type 0} (q : Statement A) → Preserves I q → Keeps env I (exec_tx q)
  exec_tx-Keeps q h =
      exec_tx-Triple q (λ c v p. p.0) (λ c v p. answered_both I (q v).0 c (q v).1 p.0 (h v p.1))

  pub inspect_tx-Keeps :
      {A B : Type 0} (q : Statement A) (k : Sql A → Action B)
      → Preserves I q
      → ((r : Sql A) → Keeps env I (k r))
      → Keeps env I (inspect_tx q k)
  inspect_tx-Keeps q k h next =
      inspect_tx-Triple (λ _. Both I) (λ c v p. (p.0, h v p.1)) (λ f c v p. (p, (p.0, h v p.1)))
        next

  pub mapping_error-Keeps :
      {A : Type 0} (m : Action A) (f : Failure → Failure)
      → Keeps env I m
      → Keeps env I (mapping_error f m)
  mapping_error-Keeps m f h = mapping_error-Triple m h f

  pub record_metric-Keeps :
      (collector : Bool) (metric : Metric) → Keeps env I (record_metric collector metric)
  record_metric-Keeps collector metric = record_metric-Triple collector metric

-- What runs outside a transaction knows only what is committed.
abbrev pub Outside : (Tables → Type 0) → Condition
Outside I c v = I c

abbrev pub KeepsOutside : {A : Type 0} → Env → (Tables → Type 0) → Action A → Type 0
KeepsOutside env I m = Triple env I (Outside I) m (λ _. Outside I)

module _ (env : Env) (I : Tables → Type 0) (calm : Calm env I) where
  -- A statement of the pool leaves both tables with the invariant, wherever it starts from.
  pub exec_pool-Keeps :
      {A : Type 0} (q : Statement A)
      → Preserves I q
      → Triple env I (Outside I) (exec_pool q) (λ _. Both I)
  exec_pool-Keeps q h =
      exec_pool-Triple q I (λ n c v p. calm n c p) (λ t s. s) (λ t s. h t s)
        (λ t s. answered_both I (q t).0 (q t).1 (q t).1 (h t s) (h t s))

  pub inspect_pool-Keeps :
      {A B : Type 0} (q : Statement A) (k : Sql A → Action B)
      → Preserves I q
      → ((r : Sql A) → Keeps env I (k r))
      → Triple env I (Outside I) (inspect_pool q k) (λ _. Both I)
  inspect_pool-Keeps q k h next =
      inspect_pool-Triple (λ _. Both I) I (λ n c v p. calm n c p) (λ t s. (h t s, h t s))
        (λ f t s. ((s, s), (h t s, h t s))) next

  pub within_transaction-Keeps :
      {A : Type 0} (m : Action A) → Keeps env I m → KeepsOutside env I (within_transaction m)
  within_transaction-Keeps m h =
      within_transaction-Triple (λ _. I) (λ n c v p. (calm n c p, calm n c p)) (λ c v p. p.0) h
        (λ a c v p. (p.1, p.0, p.1))

  pub inspect_pool-KeepsOutside :
      {A B : Type 0} (q : Statement A) (k : Sql A → Action B)
      → Preserves I q
      → ((r : Sql A) → KeepsOutside env I (k r))
      → KeepsOutside env I (inspect_pool q k)
  inspect_pool-KeepsOutside q k h next =
      inspect_pool-Triple (λ r c v. I c) I (λ n c v p. calm n c p) (λ t s. h t s)
        (λ f t s. (s, h t s)) next

  pub exec_pool-KeepsOutside :
      {A : Type 0} (q : Statement A) → Preserves I q → KeepsOutside env I (exec_pool q)
  exec_pool-KeepsOutside q h = conseq-Triple (exec_pool-Keeps q h) (λ c v p. p) (λ a c v p. p.0)

module _ (env : Env) (I : Tables → Type 0) where
  pub raise-KeepsOutside :
      {A : Type 0} (e : Failure) → KeepsOutside {A = A} env I (λ _ w. (err e, w))
  raise-KeepsOutside e = record { run = λ w p. p }

  pub pure-KeepsOutside : {A : Type 0} (a : A) → KeepsOutside env I (λ _ w. (ok a, w))
  pure-KeepsOutside a = pure-Triple (λ c v p. p)

  pub lift-KeepsOutside : {A : Type 0} (r : Result A) → KeepsOutside env I (λ _ w. (r, w))
  lift-KeepsOutside r = lift-Triple r (λ c v p. p) (λ a c v e p. p)

  pub if-KeepsOutside :
      {A : Type 0} (b : Bool) (m n : Action A)
      → KeepsOutside env I m
      → KeepsOutside env I n
      → KeepsOutside env I (if b then m else n)
  if-KeepsOutside true m n hm hn = hm
  if-KeepsOutside false m n hm hn = hn

-- What has been kept of the committed tables, whatever the result.
pub Ends-committed :
    {A : Type 0} (I : Tables → Type 0) (o : Result A × World)
    → Ends (λ a. Outside I) I o
    → I o.1.committed
Ends-committed I (ok a, w) h = h
Ends-committed I (err e, w) h = h
