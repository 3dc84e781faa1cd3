-- ===== src/Service/Auth/Refreshing.antt =====
-- internal/service/auth/service.go: a refresh token that has been used or logged out is refused.
use disbursment_api.Base.{
  ◌≤◌, ◌≡◌, refl, true, false, some, List, [], ◌∷◌, find, count, arith, Bool-cases, Option-cases,
  inl, inr, is_some,
}
use disbursment_api.Base.Text.{Text, is_empty}
use disbursment_api.Failure.{Failure, Result, ok, err, is_ok}
use disbursment_api.Repository.Tables.{RefreshSession, Tables}
use disbursment_api.Repository.World.{Env, World}
use disbursment_api.Repository.World.Rules.{
  Condition, Ends, Triple, Answered, bind-Triple, exec_tx-Triple, within_transaction-Triple,
}
use disbursment_api.Repository.World.Handlers.{
  record_metric-Triple, mapping_error-Triple, attempt-Triple,
}
use disbursment_api.Repository.World.Keeps.{Calm}
use disbursment_api.Repository.Sessions
use disbursment_api.Repository.Sessions.{
  with_hash, clashes, fresh_session, insert_session_statement, find_session_statement, rotates,
  rotated, rotate_statement, some_rotated, revokes, revoke_statement, find_user_statement,
}
use disbursment_api.Service.Auth.{
  Auth, AuthReadings, with_session, store_refresh, refreshed, refresh,
}

-- No session with the hash is unrevoked; and at most one has the hash.
abbrev pub Revoked : Text → Tables → Type 0
Revoked hash t = count (revokes hash) t.refresh_sessions ≡ 0

abbrev pub UniqueHash : Text → Tables → Type 0
UniqueHash hash t = count (with_hash hash) t.refresh_sessions ≤ 1

-- Nothing is known after an error.
abbrev pub Anything : Tables → Type 0
Anything t = Unit

-- No value comes of it.
abbrev Never : {A : Type 0} → A → Condition
Never a c v = true ≡ false

find-revoked :
    (hash : Text) (rows : List RefreshSession) (session : RefreshSession)
    → count (revokes hash) rows ≡ 0
    → find (with_hash hash) rows ≡ some session
    → is_some session.revoked_at ≡ true
find-revoked hash [] session h found = cc
find-revoked hash (row ∷ rows) session h found = ground (arith, find-revoked hash rows session)

module _ (env : Env) (auth : Auth) (r : AuthReadings) (hash : Text) where
  -- The session that is found has been revoked.
  IsRevoked : RefreshSession → Condition
  IsRevoked session c v = is_some session.revoked_at ≡ true

  find_session-IsRevoked :
      (c v : Tables)
      → Revoked hash v
      → let (a, t) = find_session_statement hash v in Answered Anything IsRevoked a c t
  unfolding find_session_statement IsRevoked
  find_session-IsRevoked c v h = elim (Option-cases (find (with_hash hash) v.refresh_sessions)) [
    | inl missing ↦ rw missing tt
    | inr (session, found) ↦ rw found (find-revoked hash v.refresh_sessions session h found)
  ]

  with_session-Never :
      (session : RefreshSession)
      → Triple env Anything (IsRevoked session) (with_session auth r hash session) Never
  unfolding IsRevoked
  with_session-Never session = elim (Bool-cases (is_some session.revoked_at)) [
    | inl gone ↦ rw gone (record { run = λ w p. tt })
    | inr live ↦ record { run = λ w p. ground (arith, live) }
  ]

  store_refresh-Never :
      Triple env Anything (λ c v. Revoked hash v) (store_refresh auth r hash) Never
  unfolding store_refresh Sessions.find_by_token_hash
  store_refresh-Never =
      bind-Triple
        (mapping_error-Triple _
          (exec_tx-Triple (find_session_statement hash) (λ c v p. tt) find_session-IsRevoked) _)
        with_session-Never

is_ok-Never : {A : Type 0} (o : Result A × World) → Ends Never Anything o → is_ok o.0 ≡ false
is_ok-Never (ok a, w) h = ground arith
is_ok-Never (err e, w) h = refl

refused-Triple :
    (env : Env) (auth : Auth) (r : AuthReadings) (e : Failure)
    → Triple env Anything (λ c v. Unit) (refreshed auth r (err e)) Never
refused-Triple env auth r e =
    bind-Triple (record_metric-Triple auth.collector _) (λ u. record { run = λ w p. tt })

-- A token whose sessions are all revoked is refused.
pub refresh-Revoked :
    (env : Env) (auth : Auth) (r : AuthReadings) (token : Text) (w : World)
    → Calm env (Revoked (auth.hash_token token))
    → Revoked (auth.hash_token token) w.committed
    → is_ok (refresh auth r token env w).0 ≡ false
unfolding refresh
refresh-Revoked env auth r token w calm h = elim (Bool-cases (is_empty token)) [
  | inl empty ↦ rw empty refl
  | inr given ↦ rw given (
      is_ok-Never _ (
        (attempt-Triple _ _
            (within_transaction-Triple (λ a t. true ≡ false) (λ n c v p. calm n c p) (λ c v p. tt)
              (store_refresh-Never env auth r (auth.hash_token token)) (λ a c v p. cc))
            (λ a. record { run = λ w p. cc }) (refused-Triple env auth r)).run
          w h))
]
