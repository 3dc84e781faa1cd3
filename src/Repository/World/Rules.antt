-- ===== src/Repository/World/Rules.antt =====
-- Rules of reasoning about database actions: what holds of the committed tables and of the open
-- transaction's view after a statement, a chain of actions, and a transaction.
use disbursment_api.Base.{ℕ, ◌≡◌, refl}
use disbursment_api.Failure.{Cause, Result, ok, err}
use disbursment_api.Repository.Tables.{Tables}
use disbursment_api.Repository.World.{
  Sql, returned, failed, cause_of, Fault, Statement, World, Env, Exchange, works, refused,
  reply_lost, Action, continue, ◌>>=◌, query_tx, answer_tx, query_pool, answer_pool, observe, tick,
  exec_tx, exec_pool, inspect_tx, inspect_pool, within_transaction, begin, commit, finish,
  classified,
}

-- A condition on the committed tables and the view.
abbrev pub Condition : Type 1
Condition = Tables → Tables → Type 0

-- After a success the postcondition holds of the result and both tables, after an error `F` of the
-- committed tables: the view is dropped.
abbrev pub Ends : {A : Type 0} → (A → Condition) → (Tables → Type 0) → Result A × World → Type 0
Ends Q F (ok a, w) = Q a w.committed w.view
Ends Q F (err e, w) = F w.committed

pub record Triple {A : Type 0} (env : Env) (F : Tables → Type 0) (P : Condition) (m : Action A)
    (Q : A → Condition) : Type 0 where
  pub run : (w : World) → P w.committed w.view → Ends Q F (m env w)

continue-Ends :
    {A B : Type 0} (env : Env) (F : Tables → Type 0) (Mid : A → Condition) (Q : B → Condition)
    (f : A → Action B)
    → ((a : A) → Triple env F (Mid a) (f a) Q)
    → (r : Result A) (w : World) → Ends Mid F (r, w)
    → Ends Q F (continue r f env w)
continue-Ends env F Mid Q f rest (ok a) w h = (rest a).run w h
continue-Ends env F Mid Q f rest (err e) w h = h

pub bind-Triple :
    {A B : Type 0} {env : Env} {F : Tables → Type 0} {P : Condition} {Mid : A → Condition}
    {Q : B → Condition} {m : Action A} {f : A → Action B}
    → Triple env F P m Mid
    → ((a : A) → Triple env F (Mid a) (f a) Q)
    → Triple env F P (m >>= f) Q
unfolding ◌>>=◌
bind-Triple {env} {F} {Mid} {Q} {m} {f} first rest = record {
  run = λ w h. continue-Ends env F Mid Q f rest (m env w).0 (m env w).1 (first.run w h);
}

pub pure-Triple :
    {A : Type 0} {env : Env} {F : Tables → Type 0} {P : Condition} {Q : A → Condition} {a : A}
    → ((c v : Tables) → P c v → Q a c v)
    → Triple env F P (λ e w. (ok a, w)) Q
pure-Triple h = record { run = λ w p. h w.committed w.view p }

-- A result that is at hand, such as a validation: an error leaves the tables as they are.
pub lift-Triple :
    {A : Type 0} {env : Env} {F : Tables → Type 0} {P : Condition} {Q : A → Condition}
    (r : Result A)
    → ((c v : Tables) → P c v → F c)
    → ((a : A) (c v : Tables) → r ≡ ok a → P c v → Q a c v)
    → Triple env F P (λ e w. (r, w)) Q
lift-Triple (ok a) bad good = record { run = λ w p. good a w.committed w.view refl p }
lift-Triple (err e) bad good = record { run = λ w p. bad w.committed w.view p }

-- What a statement's answer satisfies, however the exchange went.
answer_tx-cases :
    {A : Type 0} (R : Sql A → Condition) (x : Exchange) (o : Sql A × Tables) (w : World)
    → R o.0 w.committed o.1
    → ((f : Fault) → R (failed (cause_of f)) w.committed w.view)
    → ((f : Fault) → R (failed (cause_of f)) w.committed o.1)
    → let (r, w') = answer_tx x o w in R r w'.committed w'.view
unfolding answer_tx
answer_tx-cases R works o w h hr hl = h
answer_tx-cases R (refused f) o w h hr hl = hr f
answer_tx-cases R (reply_lost f) o w h hr hl = hl f

answer_pool-cases :
    {A : Type 0} (R : Sql A → Condition) (x : Exchange) (o : Sql A × Tables) (w : World)
    → R o.0 o.1 o.1
    → ((f : Fault) → R (failed (cause_of f)) w.committed w.view)
    → ((f : Fault) → R (failed (cause_of f)) o.1 o.1)
    → let (r, w') = answer_pool x o w in R r w'.committed w'.view
unfolding answer_pool
answer_pool-cases R works o w h hr hl = h
answer_pool-cases R (refused f) o w h hr hl = hr f
answer_pool-cases R (reply_lost f) o w h hr hl = hl f

module _ {A B : Type 0} {env : Env} {F : Tables → Type 0} {P : Condition} {Q : B → Condition}
    (R : Sql A → Condition) {q : Statement A} {k : Sql A → Action B} where
  pub inspect_tx-Triple :
      ((c v : Tables) → P c v → R (q v).0 c (q v).1)
      → ((f : Fault) (c v : Tables)
          → P c v
          → R (failed (cause_of f)) c v × R (failed (cause_of f)) c (q v).1)
      → ((r : Sql A) → Triple env F (R r) (k r) Q)
      → Triple env F P (inspect_tx q k) Q
  unfolding inspect_tx query_tx
  inspect_tx-Triple h hf next = record {
    run = λ w p. (next _).run _ (
        answer_tx-cases R (env.exchange w.step) (q w.view) (tick w) (h w.committed w.view p)
          (λ f. (hf f w.committed w.view p).0) (λ f. (hf f w.committed w.view p).1));
  }

  pub inspect_pool-Triple :
      (S : Tables → Type 0)
      → ((n : ℕ) (c v : Tables) → P c v → S (env.others n c))
      → ((t : Tables) → S t → R (q t).0 (q t).1 (q t).1)
      → ((f : Fault) (t : Tables)
          → S t
          → R (failed (cause_of f)) t t × R (failed (cause_of f)) (q t).1 (q t).1)
      → ((r : Sql A) → Triple env F (R r) (k r) Q)
      → Triple env F P (inspect_pool q k) Q
  unfolding inspect_pool query_pool
  inspect_pool-Triple S enter h hf next = record {
    run = λ w p.
        let t = env.others w.step w.committed in
        let s = enter w.step w.committed w.view p in
        (next _).run _ (
          answer_pool-cases R (env.exchange w.step) (q t) (observe env w) (h t s)
            (λ f. (hf f t s).0) (λ f. (hf f t s).1));
  }

classified-Ends :
    {A : Type 0} (F : Tables → Type 0) (Q : A → Condition) (r : Sql A) (w : World)
    → ((a : A) → r ≡ returned a → Q a w.committed w.view)
    → ((c : Cause) → r ≡ failed c → F w.committed)
    → Ends Q F (classified (r, w))
classified-Ends F Q (returned a) w h e = h a refl
classified-Ends F Q (failed c) w h e = e c refl

-- What an exec rule knows of an answer: a returned value, or an error whose tables satisfy `F`.
abbrev pub Answered : {A : Type 0} → (Tables → Type 0) → (A → Condition) → Sql A → Condition
Answered F Q (returned a) c v = Q a c v
Answered F Q (failed e) c v = F c

Answered-Ends :
    {A : Type 0} (F : Tables → Type 0) (Q : A → Condition) (r : Sql A) (w : World)
    → Answered F Q r w.committed w.view
    → Ends Q F (classified (r, w))
Answered-Ends F Q (returned a) w h = h
Answered-Ends F Q (failed e) w h = h

module _ {A : Type 0} {env : Env} {F : Tables → Type 0} {P : Condition} {Q : A → Condition}
    (q : Statement A) where
  -- A statement in the transaction: its effect on the view, if it returns; the committed tables stay.
  pub exec_tx-Triple :
      ((c v : Tables) → P c v → F c)
      → ((c v : Tables) → P c v → Answered F Q (q v).0 c (q v).1)
      → Triple env F P (exec_tx q) Q
  unfolding exec_tx query_tx
  exec_tx-Triple bad good = record {
    run = λ w p. Answered-Ends F Q _ _ (
        answer_tx-cases (Answered F Q) (env.exchange w.step) (q w.view) (tick w)
          (good w.committed w.view p) (λ f. bad w.committed w.view p)
          (λ f. bad w.committed w.view p));
  }

  -- A statement that commits by itself, after what the others have done meanwhile.
  pub exec_pool-Triple :
      (S : Tables → Type 0)
      → ((n : ℕ) (c v : Tables) → P c v → S (env.others n c))
      → ((t : Tables) → S t → F t)
      → ((t : Tables) → S t → F (q t).1)
      → ((t : Tables) → S t → Answered F Q (q t).0 (q t).1 (q t).1)
      → Triple env F P (exec_pool q) Q
  unfolding exec_pool query_pool
  exec_pool-Triple S enter idle kept good = record {
    run = λ w p.
        let t = env.others w.step w.committed in
        let s = enter w.step w.committed w.view p in
        Answered-Ends F Q _ _ (
          answer_pool-cases (Answered F Q) (env.exchange w.step) (q t) (observe env w) (good t s)
            (λ f. idle t s) (λ f. kept t s));
  }

module _ {A : Type 0} (env : Env) (F : Tables → Type 0) (P : Condition) (Q : A → Condition)
    (operation : Action A) (R : A → Tables → Type 0) where
  commit-Ends :
      (x : Exchange) (a : A) (w : World)
      → R a w.view
      → F w.committed
      → F w.view
      → Ends (λ b c v. R b c) F (commit x a w)
  unfolding commit
  commit-Ends works a w h fc fv = h
  commit-Ends (refused f) a w h fc fv = fc
  commit-Ends (reply_lost f) a w h fc fv = fv

  finish-Ends :
      ((a : A) (c v : Tables) → Q a c v → R a v × F c × F v)
      → (o : Result A × World) → Ends Q F o
      → Ends (λ b c v. R b c) F (finish o env)
  finish-Ends close (ok a, w) h =
      let (r, fc, fv) = close a w.committed w.view h in
      commit-Ends (env.exchange w.step) a (tick w) r fc fv
  finish-Ends close (err e, w) h = h

  pub begin-Ends :
      ((c v : Tables) → P c v → F c)
      → Triple env F P operation Q
      → ((a : A) (c v : Tables) → Q a c v → R a v × F c × F v)
      → (x : Exchange) (w : World) → P w.committed w.view
      → Ends (λ b c v. R b c) F (begin x operation env w)
  unfolding begin
  begin-Ends idle body close works w p = finish-Ends close (operation env w) (body.run w p)
  begin-Ends idle body close (refused f) w p = idle w.committed w.view p
  begin-Ends idle body close (reply_lost f) w p = idle w.committed w.view p

module _ {A : Type 0} {env : Env} {F : Tables → Type 0} {P : Condition} {Q : A → Condition}
    {operation : Action A} where
  pub conseq-Triple :
      {P' : Condition} {Q' : A → Condition}
      → Triple env F P operation Q
      → ((c v : Tables) → P' c v → P c v)
      → ((a : A) (c v : Tables) → Q a c v → Q' a c v)
      → Triple env F P' operation Q'
  conseq-Triple {Q'} t pre post = record { run = λ w p. go (operation env w) (t.run w (pre _ _ p)) }
    where
      go : (o : Result A × World) → Ends Q F o → Ends Q' F o
      go (ok a, w) h = post a w.committed w.view h
      go (err e, w) h = h

  -- A transaction: the operation starts from what the others have committed, and what it has written
  -- is committed whole or not at all.
  pub within_transaction-Triple :
      {P' : Condition} (R : A → Tables → Type 0)
      → ((n : ℕ) (c v : Tables) → P' c v → P (env.others n c) (env.others n c))
      → ((c v : Tables) → P c v → F c)
      → Triple env F P operation Q
      → ((a : A) (c v : Tables) → Q a c v → R a v × F c × F v)
      → Triple env F P' (within_transaction operation) (λ b c v. R b c)
  unfolding within_transaction
  within_transaction-Triple R enter idle body close = record {
    run = λ w p.
        begin-Ends env F P Q operation R idle body close (env.exchange w.step) (observe env w)
          (enter w.step w.committed w.view p);
  }
