-- ===== src/Service/Auth/Apart.antt =====
-- internal/service/auth/service.go: what it does to the tables leaves the audit trail as it is.
use Prim.Native.String.{String}
use disbursment_api.Base.{
  ℕ, ◌||◌, not, Bool, ◌==◌, inl, inr, Bool-cases, Option-cases, find, is_some, ltb,
}
use disbursment_api.Base.Text.{Text, is_empty}
use disbursment_api.Failure.{Failure, Result, ok, err, domain}
use disbursment_api.Domain.Errors.{invalid_credentials}
use disbursment_api.Repository.Sessions
use disbursment_api.Repository.Sessions.{
  clashes, insert_session_statement, find_session_statement, rotate_statement, some_rotated,
  revoke_statement, find_user_statement,
}
use disbursment_api.Repository.Disbursements.{user_exists}
use disbursment_api.Repository.Tables.{RefreshSession, User}
use disbursment_api.Repository.World.{Env}
use disbursment_api.Repository.World.Rules.{bind-Triple, conseq-Triple}
use disbursment_api.Repository.World.Handlers.{
  record_metric-Triple, mapping_error-Triple, attempt-Triple,
}
use disbursment_api.Repository.World.Keeps.{
  Preserves, Keeps, KeepsOutside, Calm, pure-Keeps, raise-Keeps, lift-Keeps, if-Keeps,
  exec_tx-Keeps, exec_pool-Keeps, within_transaction-Keeps, exec_pool-KeepsOutside,
  pure-KeepsOutside, raise-KeepsOutside, lift-KeepsOutside, if-KeepsOutside,
}
use disbursment_api.Service.Auth.{
  Auth, AuthReadings, is_missing, refuse, log_in, login, with_user, with_session, store_refresh,
  refresh, logout, new_session,
}
use disbursment_api.Service.Disbursement.Trail.{Side, Kept}

module _ (side : Side) where
  insert_session-Preserves :
      (session : RefreshSession) (now : ℕ)
      → Preserves (Kept side) (insert_session_statement session now)
  unfolding insert_session_statement
  insert_session-Preserves session now t h = elim (Bool-cases (not (ltb now session.expires_at))) [
    | inl late ↦ rw late h
    | inr timely ↦ elim (Bool-cases (is_some (find (clashes session) t.refresh_sessions))) [
      | inl clash ↦ rw timely (rw clash h)
      | inr new ↦ elim (Bool-cases (not (user_exists session.user_id t.users))) [
        | inl nobody ↦ rw timely (rw new (rw nobody h))
        | inr somebody ↦ rw timely (rw new (rw somebody h))
      ]
    ]
  ]

  find_user-Preserves : (p : User → Bool) → Preserves (Kept side) (find_user_statement p)
  unfolding find_user_statement
  find_user-Preserves p t h = elim (Option-cases (find p t.users)) [
    | inl nobody ↦ rw nobody h
    | inr (user, somebody) ↦ rw somebody h
  ]

  find_session-Preserves : (hash : Text) → Preserves (Kept side) (find_session_statement hash)
  unfolding find_session_statement
  find_session-Preserves hash t h =
      elim (Option-cases (find (Sessions.with_hash hash) t.refresh_sessions)) [
        | inl nothing ↦ rw nothing h
        | inr (session, there) ↦ rw there h
      ]

  rotate-Preserves :
      (hash : Text) (now id : ℕ) → Preserves (Kept side) (rotate_statement hash now id)
  unfolding rotate_statement
  rotate-Preserves hash now id t h = h

  revoke-Preserves : (hash : Text) (now : ℕ) → Preserves (Kept side) (revoke_statement hash now)
  unfolding revoke_statement
  revoke-Preserves hash now t h = h

module _ (side : Side) (env : Env) where
  rotate-Keeps :
      (hash : Text) (session : RefreshSession) (now : ℕ)
      → Keeps env (Kept side) (Sessions.rotate hash session now)
  unfolding Sessions.rotate
  rotate-Keeps hash session now =
      bind-Triple (exec_tx-Keeps env (Kept side) _ (insert_session-Preserves side session now))
        (λ u.
          bind-Triple (exec_tx-Keeps env (Kept side) _ (rotate-Preserves side hash now session.id))
            (λ rows.
              if-Keeps env (Kept side) (rows == 0) _ _ (raise-Keeps env (Kept side) _)
                (pure-Keeps env (Kept side) tt)))

  refuse-KeepsOutside :
      {A : Type 0} (auth : Auth) (reason : String) (e : Failure)
      → KeepsOutside env (Kept side) (refuse auth reason e {A = A})
  refuse-KeepsOutside auth reason e =
      bind-Triple (record_metric-Triple _ _) (λ u. raise-KeepsOutside env (Kept side) e)

  module _ (calm : Calm env (Kept side)) (auth : Auth) (r : AuthReadings) where
    log_in-KeepsOutside :
        (password : Text) (found : Result User)
        → KeepsOutside env (Kept side) (log_in auth r password found)
    unfolding Sessions.create
    log_in-KeepsOutside password (err e) =
        if-KeepsOutside env (Kept side) (is_missing e) _ _
          (refuse-KeepsOutside auth "invalid_credentials" (domain invalid_credentials))
          (raise-KeepsOutside env (Kept side) e)
    log_in-KeepsOutside password (ok user) =
        if-KeepsOutside env (Kept side) (auth.matches user.password_hash password) _ _
          (bind-Triple (lift-KeepsOutside env (Kept side) _) (λ token.
            bind-Triple
              (within_transaction-Keeps env (Kept side) calm _ (
                exec_tx-Keeps env (Kept side) _
                  (insert_session-Preserves side (new_session auth r user) r.server_now)))
              (λ u. pure-KeepsOutside env (Kept side) _)))
          (refuse-KeepsOutside auth "invalid_credentials" (domain invalid_credentials))

    pub login-KeepsOutside :
        (username password : Text) → KeepsOutside env (Kept side) (login auth r username password)
    unfolding login Sessions.find_user_by_username
    login-KeepsOutside username password =
        attempt-Triple _ _
          (exec_pool-KeepsOutside env (Kept side) calm _ (find_user-Preserves side _))
          (λ user. log_in-KeepsOutside password (ok user))
          (λ e. log_in-KeepsOutside password (err e))

    with_user-Keeps :
        (hash : Text) (user : User) → Keeps env (Kept side) (with_user auth r hash user)
    with_user-Keeps hash user =
        bind-Triple (mapping_error-Triple _ (rotate-Keeps hash _ r.now) _)
          (λ u. lift-Keeps env (Kept side) _)

    with_session-Keeps :
        (hash : Text) (session : RefreshSession)
        → Keeps env (Kept side) (with_session auth r hash session)
    unfolding Sessions.find_user_by_id
    with_session-Keeps hash session =
        if-Keeps env (Kept side) (is_some session.revoked_at || not (ltb r.now session.expires_at))
          _ _ (raise-Keeps env (Kept side) _)
          (bind-Triple
            (mapping_error-Triple _
              (conseq-Triple (exec_pool-Keeps env (Kept side) calm _ (find_user-Preserves side _))
                (λ c v p. p.0) (λ a c v p. p))
              _)
            (with_user-Keeps hash))

    store_refresh-Keeps : (hash : Text) → Keeps env (Kept side) (store_refresh auth r hash)
    unfolding store_refresh Sessions.find_by_token_hash
    store_refresh-Keeps hash =
        bind-Triple
          (mapping_error-Triple _
            (exec_tx-Keeps env (Kept side) _ (find_session-Preserves side hash)) _)
          (with_session-Keeps hash)

    pub refresh-KeepsOutside : (token : Text) → KeepsOutside env (Kept side) (refresh auth r token)
    unfolding refresh
    refresh-KeepsOutside token =
        if-KeepsOutside env (Kept side) (is_empty token) _ _ (raise-KeepsOutside env (Kept side) _)
          (attempt-Triple _ _
            (within_transaction-Keeps env (Kept side) calm _ (store_refresh-Keeps _))
            (λ text. pure-KeepsOutside env (Kept side) _)
            (λ e. refuse-KeepsOutside auth "invalid_refresh_token" e))

    pub logout-KeepsOutside : (token : Text) → KeepsOutside env (Kept side) (logout auth r token)
    unfolding logout Sessions.revoke_by_token_hash
    logout-KeepsOutside token =
        if-KeepsOutside env (Kept side) (is_empty token) _ _ (pure-KeepsOutside env (Kept side) tt)
          (within_transaction-Keeps env (Kept side) calm _
            (exec_tx-Keeps env (Kept side) _ (revoke-Preserves side _ r.now)))
