-- ===== src/Repository/Sessions.antt =====
-- internal/repository/postgres/refresh_session.go and user.go: refresh sessions, and users.
pub mod Rotation
use disbursment_api.Base.{
  ℕ, ◌+◌, Bool, true, false, not, ◌&&◌, ◌||◌, Option, none, some, List, [], ◌∷◌, ◌++◌, find, count,
  update_where, ltb, leb, ◌==◌, if◌then◌else◌, is_some,
}
use disbursment_api.Base.Text.{Text, text_eq}
use disbursment_api.Failure.{no_rows, postgres, Failure, repository, not_found}
use disbursment_api.Repository.Tables.{RefreshSession, User, Tables}
use disbursment_api.Repository.World.{
  Statement, returned, failed, Action, pure, raise, exec_tx, exec_pool, ◌>>=◌,
}
use disbursment_api.Repository.Disbursements.{user_exists}

abbrev pub with_hash : Text → RefreshSession → Bool
with_hash hash session = text_eq session.token_hash hash

abbrev pub clashes : RefreshSession → RefreshSession → Bool
clashes new old = old.id == new.id || text_eq old.token_hash new.token_hash

-- The INSERT of `Create` and `Rotate`: a session that is neither revoked nor replaced. `created_at` is
-- the time that the expiry check of the schema compares with.
unfoldable pub fresh_session : RefreshSession → RefreshSession
fresh_session session = record session { revoked_at = none; replaced_by_id = none }

unfoldable pub insert_session_statement : RefreshSession → ℕ → Statement (Unit {0})
unfolding fresh_session
insert_session_statement session created_at t =
    if not (ltb created_at session.expires_at)
    then (failed (postgres "23514"), t)
    else if is_some (find (clashes session) t.refresh_sessions)
    then (failed (postgres "23505"), t)
    else if not (user_exists session.user_id t.users)
    then (failed (postgres "23503"), t)
    else (
      returned tt,
      record t { refresh_sessions = t.refresh_sessions ++ fresh_session session ∷ [] },
    )

unfoldable pub create : RefreshSession → ℕ → Action (Unit {0})
create session now = exec_tx (insert_session_statement session now)

abbrev session_or_none : Option RefreshSession → Statement RefreshSession
session_or_none none t = (failed no_rows, t)
session_or_none (some session) t = (returned session, t)

unfoldable pub find_session_statement : Text → Statement RefreshSession
find_session_statement hash t = session_or_none (find (with_hash hash) t.refresh_sessions) t

unfoldable pub find_by_token_hash : Text → Action RefreshSession
find_by_token_hash hash = exec_tx (find_session_statement hash)

-- The rows that the UPDATE of `Rotate` changes, and its SET clause.
unfoldable pub is_live : ℕ → RefreshSession → Bool
is_live now session = not (is_some session.revoked_at) && ltb now session.expires_at

unfoldable pub rotated : ℕ → ℕ → RefreshSession → RefreshSession
rotated now new_id session = record session { revoked_at = some now; replaced_by_id = some new_id }

abbrev pub rotates : Text → ℕ → RefreshSession → Bool
rotates hash now session = with_hash hash session && is_live now session

unfoldable pub rotate_statement : Text → ℕ → ℕ → Statement ℕ
unfolding is_live rotated
rotate_statement hash now new_id t = (
  returned (count (rotates hash now) t.refresh_sessions),
  record t {
    refresh_sessions = update_where (rotates hash now) (rotated now new_id) t.refresh_sessions;
  },
)

abbrev pub some_rotated : ℕ → Action (Unit {0})
some_rotated rows = if rows == 0 then raise (repository not_found no_rows) else pure tt

unfoldable pub rotate : Text → RefreshSession → ℕ → Action (Unit {0})
rotate old_token_hash new_session now = exec_tx (insert_session_statement new_session now) >>= λ _.
    exec_tx (rotate_statement old_token_hash now new_session.id) >>= some_rotated

abbrev pub revokes : Text → RefreshSession → Bool
revokes hash session = with_hash hash session && not (is_some session.revoked_at)

unfoldable pub revoke_statement : Text → ℕ → Statement (Unit {0})
revoke_statement hash now t = (
  returned tt,
  record t {
    refresh_sessions =
        update_where (revokes hash) (λ session. record session { revoked_at = some now })
          t.refresh_sessions;
  },
)

unfoldable pub revoke_by_token_hash : Text → ℕ → Action (Unit {0})
revoke_by_token_hash hash now = exec_tx (revoke_statement hash now)

abbrev user_or_none : Option User → Statement User
user_or_none none t = (failed no_rows, t)
user_or_none (some user) t = (returned user, t)

unfoldable pub find_user_statement : (User → Bool) → Statement User
find_user_statement p t = user_or_none (find p t.users) t

-- `UserStore.FindByID` and `FindByUsername`.
unfoldable pub find_user_by_id : ℕ → Action User
find_user_by_id id = exec_pool (find_user_statement (λ user. user.id == id))

unfoldable pub find_user_by_username : Text → Action User
find_user_by_username username =
    exec_pool (find_user_statement (λ user. text_eq user.username username))
