-- ===== src/Service/Auth/Revoking.antt =====
-- internal/service/auth/service.go: what a refresh and a logout leave committed.
use disbursment_api.Base.{
  ℕ, ◌+◌, ◌≤◌, ◌≡◌, refl, Bool, true, false, not, ◌||◌, List, [], ◌∷◌, find, count, update_where,
  arith, Bool-cases, Option-cases, inl, inr, is_some, ltb, ◌==◌,
}
use disbursment_api.Base.Text.{Text, text_eq, text_eq_sound, is_empty}
use disbursment_api.Failure.{Failure, Result, ok, err, is_ok}
use disbursment_api.Repository.Tables.{RefreshSession, User, Tables}
use disbursment_api.Repository.World.{Sql, returned, failed, Env, World}
use disbursment_api.Repository.World.Rules.{
  Condition, Ends, Triple, Answered, bind-Triple, lift-Triple, exec_tx-Triple, exec_pool-Triple,
  within_transaction-Triple,
}
use disbursment_api.Repository.World.Handlers.{
  record_metric-Triple, mapping_error-Triple, attempt-Triple,
}
use disbursment_api.Repository.World.Keeps.{Both, Calm}
use disbursment_api.Repository.Sessions
use disbursment_api.Repository.Sessions.{
  with_hash, clashes, fresh_session, insert_session_statement, find_session_statement, rotates,
  rotated, rotate_statement, some_rotated, revokes, revoke_statement, find_user_statement,
}
use disbursment_api.Repository.Sessions.Rotation.{
  count-rotates, revokes≤with_hash, count-append, no_clash,
}
use disbursment_api.Service.Auth.Refreshing.{Revoked, UniqueHash, Anything, refresh-Revoked}
use disbursment_api.Service.Auth.{
  Auth, AuthReadings, new_session, with_user, with_session, store_refresh, refreshed, refresh,
  logout, generate_access_token,
}

-- Only what an action yields with a value matters.
ends_well :
    {A : Type 0} (R : Tables → Type 0) (o : Result A × World)
    → Ends (λ a c v. R c) Anything o
    → is_ok o.0 ≡ true
    → R o.1.committed
ends_well R (ok a, w) h good = h
ends_well R (err e, w) h good = cc

count-update_where_none :
    (p : RefreshSession → Bool) (f : RefreshSession → RefreshSession) (rows : List RefreshSession)
    → ((row : RefreshSession) → p (f row) ≡ false)
    → count p (update_where p f rows) ≡ 0
count-update_where_none p f [] shut = refl
count-update_where_none p f (row ∷ rows) shut =
    ground (arith, shut row, count-update_where_none p f rows shut)

logout-Revoked :
    (env : Env) (auth : Auth) (r : AuthReadings) (token : Text) (w : World)
    → is_empty token ≡ false
    → is_ok (logout auth r token env w).0 ≡ true
    → Revoked (auth.hash_token token) (logout auth r token env w).1.committed
unfolding logout Sessions.revoke_by_token_hash revoke_statement
logout-Revoked env auth r token w given =
    let hash = auth.hash_token token in
    rw given (
      ends_well (Revoked hash) _ (
        (within_transaction-Triple {P = λ c v. Unit} {Q = λ a c v. Revoked hash v}
            {P' = λ c v. Unit} (λ a t. Revoked hash t) (λ n c v p. tt) (λ c v p. tt)
            (exec_tx-Triple _ (λ c v p. tt)
              (λ c v p.
                count-update_where_none (revokes hash) _ v.refresh_sessions (λ row. ground arith)))
            (λ a c v p. (p, tt, tt))).run
          w (tt {0})))

module _ (env : Env) (auth : Auth) (r : AuthReadings) (hash : Text) where
  insert_session-UniqueHash :
      (session : RefreshSession) (now : ℕ) (t : Tables)
      → UniqueHash hash t
      → UniqueHash hash (insert_session_statement session now t).1
  unfolding insert_session_statement fresh_session
  insert_session-UniqueHash session now t h =
      elim (Option-cases (find (clashes session) t.refresh_sessions)) [
        | inl free ↦
            let with_it =
              count-append hash (with_hash hash) t.refresh_sessions (fresh_session session) in
            elim (Bool-cases (text_eq session.token_hash hash)) [
              | inl same ↦
                  let absent =
                    no_clash hash session t.refresh_sessions
                      (text_eq_sound session.token_hash hash same) free in
                  ground (arith, free, same, absent, with_it)
              | inr other ↦ ground (arith, free, other, with_it)
            ]
        | inr (old, taken) ↦ ground (arith, taken)
      ]

  unique_answer :
      (a : Sql (Unit {0})) (c v : Tables)
      → UniqueHash hash v
      → Answered Anything (λ u c v. UniqueHash hash v) a c v
  unique_answer (returned u) c v h = h
  unique_answer (failed e) c v h = tt

  -- What the UPDATE of a rotation reports, against what is left unrevoked.
  Rotates : ℕ → Condition
  Rotates n c v = n + count (revokes hash) v.refresh_sessions ≤ 1

  rotate_statement-Rotates :
      (now new_id : ℕ) (c v : Tables)
      → UniqueHash hash v
      → let (a, t) = rotate_statement hash now new_id v in Answered Anything Rotates a c t
  unfolding rotate_statement Rotates
  rotate_statement-Rotates now new_id c v h =
      let bound = revokes≤with_hash hash v.refresh_sessions in
      let turn = count-rotates hash now new_id v.refresh_sessions in ground (arith, bound, turn)

  some_rotated-Triple :
      (n : ℕ) → Triple env Anything (Rotates n) (some_rotated n) (λ u c v. Revoked hash v)
  unfolding Rotates
  some_rotated-Triple n = elim (Bool-cases (n == 0)) [
    | inl none_there ↦ rw none_there (record { run = λ w p. tt })
    | inr some_there ↦ rw some_there (record { run = λ w p. ground (arith, some_there) })
  ]

  rotate-Triple :
      (session : RefreshSession)
      → Triple env Anything
          (λ c v. UniqueHash hash v)
          (Sessions.rotate hash session r.now)
          (λ u c v. Revoked hash v)
  unfolding Sessions.rotate
  rotate-Triple session =
      bind-Triple
        (exec_tx-Triple (insert_session_statement session r.now) (λ c v p. tt)
          (λ c v p. unique_answer _ c _ (insert_session-UniqueHash session r.now v p)))
        (λ u.
          bind-Triple
            (exec_tx-Triple (rotate_statement hash r.now session.id) (λ c v p. tt)
              (λ c v p. rotate_statement-Rotates r.now session.id c v p))
            some_rotated-Triple)

  with_user-Triple :
      (user : User)
      → Triple env Anything
          (λ c v. UniqueHash hash v)
          (with_user auth r hash user)
          (λ token c v. Revoked hash v)
  with_user-Triple user =
      bind-Triple (mapping_error-Triple _ (rotate-Triple (new_session auth r user)) _)
        (λ u. lift-Triple (generate_access_token auth user r.now) (λ c v p. tt) (λ a c v e p. p))

  find_session-UniqueHash :
      (c v : Tables)
      → UniqueHash hash c × UniqueHash hash v
      → let (a, t) = find_session_statement hash v in
        Answered Anything (λ s c v. UniqueHash hash c) a c t
  unfolding find_session_statement
  find_session-UniqueHash c v h = elim (Option-cases (find (with_hash hash) v.refresh_sessions)) [
    | inl missing ↦ rw missing tt
    | inr (session, found) ↦ rw found h.0
  ]

  find_user-UniqueHash :
      (p : User → Bool) (t : Tables)
      → UniqueHash hash t
      → let (a, t') = find_user_statement p t in
        Answered Anything (λ u c v. UniqueHash hash v) a t' t'
  unfolding find_user_statement
  find_user-UniqueHash p t h = elim (Option-cases (find p t.users)) [
    | inl missing ↦ rw missing tt
    | inr (user, found) ↦ rw found h
  ]

  module _ (calm : Calm env (UniqueHash hash)) where
    with_session-Triple :
        (session : RefreshSession)
        → Triple env Anything
            (λ c v. UniqueHash hash c)
            (with_session auth r hash session)
            (λ token c v. Revoked hash v)
    unfolding Sessions.find_user_by_id
    with_session-Triple session =
        elim (Bool-cases (is_some session.revoked_at || not (ltb r.now session.expires_at))) [
          | inl dead ↦ rw dead (record { run = λ w p. tt })
          | inr live ↦ rw live (
              bind-Triple
                (mapping_error-Triple _
                  (exec_pool-Triple _ (UniqueHash hash) (λ n c v p. calm n c p) (λ t s. tt)
                    (λ t s. tt) (find_user-UniqueHash _))
                  _)
                with_user-Triple)
        ]

    store_refresh-Triple :
        Triple env Anything
          (Both (UniqueHash hash))
          (store_refresh auth r hash)
          (λ token c v. Revoked hash v)
    unfolding store_refresh Sessions.find_by_token_hash
    store_refresh-Triple =
        bind-Triple
          (mapping_error-Triple _
            (exec_tx-Triple (find_session_statement hash) (λ c v p. tt) find_session-UniqueHash) _)
          with_session-Triple

refreshed-Triple :
    (env : Env) (auth : Auth) (r : AuthReadings) (R : Tables → Type 0) (token : Text)
    → Triple env Anything (λ c v. R c) (refreshed auth r (ok token)) (λ a c v. R c)
refreshed-Triple env auth r R token = record { run = λ w p. p }

refusal-Triple :
    (env : Env) (auth : Auth) (r : AuthReadings) (R : Tables → Type 0) (e : Failure)
    → Triple env Anything (λ c v. Unit) (refreshed auth r (err e)) (λ a c v. R c)
refusal-Triple env auth r R e =
    bind-Triple (record_metric-Triple auth.collector _) (λ u. record { run = λ w p. tt })

refresh-revokes :
    (env : Env) (auth : Auth) (r : AuthReadings) (token : Text) (w : World)
    → Calm env (UniqueHash (auth.hash_token token))
    → UniqueHash (auth.hash_token token) w.committed
    → is_ok (refresh auth r token env w).0 ≡ true
    → Revoked (auth.hash_token token) (refresh auth r token env w).1.committed
unfolding refresh
refresh-revokes env auth r token w calm h =
    let hash = auth.hash_token token in
    elim (Bool-cases (is_empty token)) [
      | inl empty ↦ rw empty (λ good. cc)
      | inr given ↦ rw given (
          ends_well (Revoked hash) _ (
            (attempt-Triple _ _
                (within_transaction-Triple (λ a t. Revoked hash t)
                  (λ n c v p. (calm n c p, calm n c p)) (λ c v p. tt)
                  (store_refresh-Triple env auth r hash calm) (λ a c v p. (p, tt, tt)))
                (refreshed-Triple env auth r (Revoked hash))
                (refusal-Triple env auth r (Revoked hash))).run
              w h))
    ]

module _ (env : Env) (auth : Auth) (r r' : AuthReadings) (token : Text) (w : World)
    (stays_revoked : Calm env (Revoked (auth.hash_token token))) where
  -- A refresh token is good for one refresh: after a successful one, a later refresh with the same
  -- token fails. The other sessions neither give a second session to the token's hash nor undo a
  -- revocation, and at most one session has the hash at first.
  pub refresh-refresh :
      Calm env (UniqueHash (auth.hash_token token))
      → UniqueHash (auth.hash_token token) w.committed
      → is_ok (refresh auth r token env w).0 ≡ true
      → is_ok (refresh auth r' token env (refresh auth r token env w).1).0 ≡ false
  refresh-refresh calm unique good =
      refresh-Revoked env auth r' token _ stays_revoked
        (refresh-revokes env auth r token w calm unique good)

  -- After a successful logout a refresh with the same token fails, if the other sessions do not undo
  -- a revocation. The token is not empty: a logout without a token does nothing.
  pub logout-refresh :
      is_empty token ≡ false
      → is_ok (logout auth r token env w).0 ≡ true
      → is_ok (refresh auth r' token env (logout auth r token env w).1).0 ≡ false
  logout-refresh given good =
      refresh-Revoked env auth r' token _ stays_revoked
        (logout-Revoked env auth r token w given good)
