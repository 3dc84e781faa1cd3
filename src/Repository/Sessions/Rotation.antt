-- ===== src/Repository/Sessions/Rotation.antt =====
-- internal/repository/postgres/refresh_session.go: what sequences of its statements, of any sessions, do
-- to one token hash. Each statement is atomic, so that an interleaving is a sequence.
use disbursment_api.Base.{
  ℕ, ◌+◌, ◌≤◌, ◌≡◌, refl, inl, inr, Bool, true, none, some, List, [], ◌∷◌, ◌++◌, find, count,
  update_where, arith, Bool-cases, Option-cases, is_some, if◌then◌else◌, ◌==◌,
}
use disbursment_api.Base.Text.{Text, text_eq, text_eq_sound}
use disbursment_api.Repository.Tables.{RefreshSession, Tables}
use disbursment_api.Repository.World.{Sql, returned, failed}
use disbursment_api.Repository.Sessions.{
  with_hash, clashes, fresh_session, insert_session_statement, is_live, rotated, rotates,
  rotate_statement, revokes, revoke_statement,
}

pub data SessionStatement : Type 0 where
  insert : RefreshSession → ℕ → SessionStatement
  rotate : Text → ℕ → ℕ → SessionStatement
  revoke : Text → ℕ → SessionStatement

abbrev rows_of : Sql ℕ → ℕ
rows_of (returned n) = n
rows_of (failed cause) = 0

unfoldable pub run_session : SessionStatement → Tables → Tables
run_session (insert session created_at) t = (insert_session_statement session created_at t).1
run_session (rotate hash now new_id) t = (rotate_statement hash now new_id t).1
run_session (revoke hash now) t = (revoke_statement hash now t).1

-- How many rows a statement rotates that asks for a hash.
unfoldable pub rotations_of : Text → SessionStatement → Tables → ℕ
rotations_of hash (insert session created_at) t = 0
rotations_of hash (rotate other now new_id) t =
    if text_eq other hash then rows_of (rotate_statement other now new_id t).0 else 0
rotations_of hash (revoke other now) t = 0

unfoldable pub rotations : Text → List SessionStatement → Tables → ℕ
unfolding run_session rotations_of
rotations hash [] t = 0
rotations hash (s ∷ ss) t = rotations_of hash s t + rotations hash ss (run_session s t)

-- How often a hash can still be rotated: once before its session is there, then while it is unrevoked.
module _ (hash : Text) where
  chances_in : List RefreshSession → ℕ
  chances_in rows = if count (with_hash hash) rows == 0 then 1 else count (revokes hash) rows

  count-with_hash-update :
      (p : RefreshSession → Bool) (f : RefreshSession → RefreshSession) (rows : List RefreshSession)
      → ((row : RefreshSession) → (f row).token_hash ≡ row.token_hash)
      → count (with_hash hash) (update_where p f rows) ≡ count (with_hash hash) rows
  count-with_hash-update p f [] same = refl
  count-with_hash-update p f (row ∷ rows) same =
      ground (arith, same row, count-with_hash-update p f rows same)

  count-revokes-update :
      (p : RefreshSession → Bool) (f : RefreshSession → RefreshSession) (rows : List RefreshSession)
      → ((row : RefreshSession) → is_some (f row).revoked_at ≡ true)
      → count (revokes hash) (update_where p f rows) ≤ count (revokes hash) rows
  count-revokes-update p f [] gone = ground arith
  count-revokes-update p f (row ∷ rows) gone =
      ground (arith, gone row, count-revokes-update p f rows gone)

  pub count-rotates :
      (now new_id : ℕ) (rows : List RefreshSession)
      → count (rotates hash now) rows
          + count (revokes hash) (update_where (rotates hash now) (rotated now new_id) rows)
        ≤ count (revokes hash) rows
  unfolding is_live rotated
  count-rotates now new_id [] = ground arith
  count-rotates now new_id (row ∷ rows) = ground (arith, count-rotates now new_id rows)

  pub revokes≤with_hash :
      (rows : List RefreshSession) → count (revokes hash) rows ≤ count (with_hash hash) rows
  revokes≤with_hash [] = ground arith
  revokes≤with_hash (row ∷ rows) = ground (arith, revokes≤with_hash rows)

  pub count-append :
      (p : RefreshSession → Bool) (rows : List RefreshSession) (row : RefreshSession)
      → count p (rows ++ row ∷ []) ≡ count p rows + (if p row then 1 else 0)
  count-append p [] row = ground arith
  count-append p (r ∷ rows) row = ground (arith, count-append p rows row)

  pub no_clash :
      (session : RefreshSession) (rows : List RefreshSession)
      → session.token_hash ≡ hash
      → find (clashes session) rows ≡ none
      → count (with_hash hash) rows ≡ 0
  no_clash session [] same h = refl
  no_clash session (row ∷ rows) same h = ground (arith, same, no_clash session rows same)

  append-chances :
      (session : RefreshSession) (rows : List RefreshSession)
      → find (clashes session) rows ≡ none
      → chances_in (rows ++ fresh_session session ∷ []) ≤ chances_in rows
  unfolding chances_in fresh_session
  append-chances session rows free =
      let with_it = count-append (with_hash hash) rows (fresh_session session) in
      let unrevoked = count-append (revokes hash) rows (fresh_session session) in
      let bound = revokes≤with_hash rows in
      elim (Bool-cases (text_eq session.token_hash hash)) [
        | inl same ↦
            let absent = no_clash session rows (text_eq_sound session.token_hash hash same) free in
            ground (arith, same, absent, with_it, unrevoked, bound)
        | inr other ↦ ground (arith, other, with_it, unrevoked, bound)
      ]

  insert-chances :
      (session : RefreshSession) (created_at : ℕ) (t : Tables)
      → chances_in (insert_session_statement session created_at t).1.refresh_sessions
        ≤ chances_in t.refresh_sessions
  unfolding insert_session_statement
  insert-chances session created_at t =
      elim (Option-cases (find (clashes session) t.refresh_sessions)) [
        | inl free ↦ ground (arith, free, append-chances session t.refresh_sessions free)
        | inr (old, taken) ↦ ground (arith, taken)
      ]

  rotate-chances :
      (other : Text) (now new_id : ℕ) (t : Tables)
      → rotations_of hash (rotate other now new_id) t
          + chances_in (rotate_statement other now new_id t).1.refresh_sessions
        ≤ chances_in t.refresh_sessions
  unfolding chances_in rotations_of rotate_statement rotated
  rotate-chances other now new_id t =
      let rows = t.refresh_sessions in
      let same_hashes =
        count-with_hash-update (rotates other now) (rotated now new_id) rows (λ row. refl) in
      let bound = revokes≤with_hash rows in
      elim (Bool-cases (text_eq other hash)) [
        | inl same ↦
            let e = text_eq_sound other hash same in
            ground (arith, same, e, same_hashes, bound, count-rotates now new_id rows)
        | inr apart ↦ ground (
          arith,
          apart,
          same_hashes,
          count-revokes-update (rotates other now) (rotated now new_id) rows (λ row. refl),
        )
      ]

  revoke-chances :
      (other : Text) (now : ℕ) (t : Tables)
      → chances_in (revoke_statement other now t).1.refresh_sessions ≤ chances_in t.refresh_sessions
  unfolding chances_in revoke_statement
  revoke-chances other now t = ground (
    arith,
    count-with_hash-update (revokes other) (λ session. record session { revoked_at = some now })
        t.refresh_sessions (λ row. refl),
    count-revokes-update (revokes other) (λ session. record session { revoked_at = some now })
        t.refresh_sessions (λ row. refl),
  )

  statement-chances :
      (s : SessionStatement) (t : Tables)
      → rotations_of hash s t + chances_in (run_session s t).refresh_sessions
        ≤ chances_in t.refresh_sessions
  unfolding run_session rotations_of
  statement-chances (insert session created_at) t =
      ground (arith, insert-chances session created_at t)
  statement-chances (rotate other now new_id) t = rotate-chances other now new_id t
  statement-chances (revoke other now) t = ground (arith, revoke-chances other now t)

  rotations-chances :
      (ss : List SessionStatement) (t : Tables)
      → rotations hash ss t ≤ chances_in t.refresh_sessions
  unfolding rotations
  rotations-chances [] t = ground arith
  rotations-chances (s ∷ ss) t =
      ground (arith, statement-chances s t, rotations-chances ss (run_session s t))

-- Whatever sequence of creations, rotations and revocations of refresh sessions the server runs, with
-- whatever clock readings, the sessions with one token hash are rotated at most once in all, if at
-- most one session has that hash at first.
pub rotations-at_most_one :
    (hash : Text) (ss : List SessionStatement) (t : Tables)
    → count (with_hash hash) t.refresh_sessions ≤ 1
    → rotations hash ss t ≤ 1
unfolding chances_in
rotations-at_most_one hash ss t unique =
    ground (arith, rotations-chances hash ss t, revokes≤with_hash hash t.refresh_sessions)
