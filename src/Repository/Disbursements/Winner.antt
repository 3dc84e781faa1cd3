-- ===== src/Repository/Disbursements/Winner.antt =====
-- internal/repository/postgres/disbursement.go: the UPDATE statements of decisions and deletions, in
-- whatever order sessions run them. Each is atomic, so that an interleaving is a sequence.
use disbursment_api.Base.{
  ℕ, suc, ◌≤◌, ◌≡◌, refl, sym, ◌⊎◌, inl, inr, Bool, true, false, ◌&&◌, none, List, [], ◌∷◌, find,
  update_where, All, arith, Bool-cases, Option-cases, if◌then◌else◌, ◌==◌,
}
use disbursment_api.Domain.Disbursement.{Decision, approved, rejected}
use disbursment_api.Repository.Tables.{DbDisbursement, Tables}
use disbursment_api.Repository.World.{Sql, returned, failed}
use disbursment_api.Repository.Disbursements.{
  is_open, decodes, decide_row, delete_row, update_open, update_status_statement,
  soft_delete_statement, broken_constraint,
}
use disbursment_api.Repository.Disbursements.Statements.{find-update_where-none}

pub data Change : Type 0 where
  decide : ℕ → Decision → ℕ → Change
  delete : ℕ → ℕ → Change

unfoldable pub run_change : Change → Tables → Sql DbDisbursement × Tables
run_change (decide id decision now) t = update_status_statement id decision now t
run_change (delete id now) t = soft_delete_statement id now t

abbrev pub target : Change → ℕ
target (decide id decision now) = id
target (delete id now) = id

-- A decision that `Decision.Validate` lets through.
abbrev pub Decides : Change → Type 0
Decides (decide id decision now) = (decision.status ≡ approved) ⊎ (decision.status ≡ rejected)
Decides (delete id now) = Unit

abbrev pub succeeds : Sql DbDisbursement → Bool
succeeds (returned row) = true
succeeds (failed cause) = false

-- How many of the statements on an id have changed a row.
unfoldable pub winners : ℕ → List Change → Tables → ℕ
unfolding run_change
winners id [] t = 0
winners id (c ∷ cs) t =
    let (r, t') = run_change c t in
    let rest = winners id cs t' in if target c == id && succeeds r then suc rest else rest

-- No row with the id is open.
abbrev Closed : ℕ → Tables → Type 0
Closed id t = find (is_open id) t.disbursements ≡ none

find-update_where_shut :
    (p q : DbDisbursement → Bool) (f : DbDisbursement → DbDisbursement) (rows : List DbDisbursement)
    → ((row : DbDisbursement) → p (f row) ≡ false)
    → find p rows ≡ none
    → find p (update_where q f rows) ≡ none
find-update_where_shut p q f [] shut h = refl
find-update_where_shut p q f (row ∷ rows) shut h =
    ground (arith, shut row, find-update_where_shut p q f rows shut)

module _ (id other : ℕ) (change : DbDisbursement → DbDisbursement) (t : Tables)
    (shut : (row : DbDisbursement) → is_open id (change row) ≡ false) where
  -- What is closed stays closed, and what an UPDATE has changed is closed.
  update_open-Closed : Closed id t → Closed id (update_open other change t).1
  unfolding update_open
  update_open-Closed h = elim (Option-cases (find (is_open other) t.disbursements)) [
    | inl missing ↦ rw missing h
    | inr (row, found) ↦ elim (Option-cases (broken_constraint t.users (change row))) [
      | inl fits ↦
          rw (found, fits)
            (find-update_where_shut (is_open id) (is_open other) change t.disbursements shut h)
      | inr (cause, broken) ↦ rw (found, broken) h
    ]
  ]

module _ (id : ℕ) (change : DbDisbursement → DbDisbursement) (t : Tables)
    (shut : (row : DbDisbursement) → is_open id (change row) ≡ false) where
  update_open-wins :
      (succeeds (update_open id change t).0 ≡ false) ⊎ Closed id (update_open id change t).1
  unfolding update_open
  update_open-wins = elim (Option-cases (find (is_open id) t.disbursements)) [
    | inl missing ↦ inl (rw missing refl)
    | inr (row, found) ↦ elim (Option-cases (broken_constraint t.users (change row))) [
      | inl fits ↦
          inr (rw (found, fits) (find-update_where-none (is_open id) change t.disbursements shut))
      | inr (cause, broken) ↦ inl (rw (found, broken) refl)
    ]
  ]

  update_open-loses : Closed id t → succeeds (update_open id change t).0 ≡ false
  unfolding update_open
  update_open-loses h = rw h refl

decide_row-shut :
    (id now : ℕ) (decision : Decision) (row : DbDisbursement)
    → (decision.status ≡ approved) ⊎ (decision.status ≡ rejected)
    → is_open id (decide_row decision now row) ≡ false
unfolding decide_row
decide_row-shut id now decision row h = ground arith

delete_row-shut : (id now : ℕ) (row : DbDisbursement) → is_open id (delete_row now row) ≡ false
unfolding delete_row
delete_row-shut id now row = ground arith

run_change-Closed :
    (id : ℕ) (c : Change) (t : Tables) → Decides c → Closed id t → Closed id (run_change c t).1
unfolding run_change update_status_statement soft_delete_statement
run_change-Closed id (decide other decision now) t d h = elim (Bool-cases (decodes decision)) [
  | inl known ↦ rw known (
      update_open-Closed id other (decide_row decision now) t
        (λ row. decide_row-shut id now decision row d) h)
  | inr unknown ↦ rw unknown h
]
run_change-Closed id (delete other now) t d h =
    update_open-Closed id other (delete_row now) t (delete_row-shut id now) h

run_change-wins :
    (c : Change) (t : Tables)
    → Decides c
    → (succeeds (run_change c t).0 ≡ false) ⊎ Closed (target c) (run_change c t).1
unfolding run_change update_status_statement soft_delete_statement
run_change-wins (decide id decision now) t d = elim (Bool-cases (decodes decision)) [
  | inl known ↦ rw known (
      update_open-wins id (decide_row decision now) t
        (λ row. decide_row-shut id now decision row d))
  | inr unknown ↦ inl (rw unknown refl)
]
run_change-wins (delete id now) t d =
    update_open-wins id (delete_row now) t (delete_row-shut id now)

run_change-loses :
    (c : Change) (t : Tables)
    → Decides c
    → Closed (target c) t
    → succeeds (run_change c t).0 ≡ false
unfolding run_change update_status_statement soft_delete_statement
run_change-loses (decide id decision now) t d h = elim (Bool-cases (decodes decision)) [
  | inl known ↦ rw known (
      update_open-loses id (decide_row decision now) t
        (λ row. decide_row-shut id now decision row d) h)
  | inr unknown ↦ rw unknown refl
]
run_change-loses (delete id now) t d h =
    update_open-loses id (delete_row now) t (delete_row-shut id now) h

winners-Closed :
    (id : ℕ) (cs : List Change) (t : Tables) → All Decides cs → Closed id t → winners id cs t ≡ 0
unfolding winners
winners-Closed id [] t d h = refl
winners-Closed id (c ∷ cs) t d h =
    let later = winners-Closed id cs (run_change c t).1 d.1 (run_change-Closed id c t d.0 h) in
    elim (Bool-cases (target c == id)) [
      | inl same ↦
          let here : target c ≡ id = ground (arith, same) in
          ground (arith, same, run_change-loses c t d.0 (rw here h), later)
      | inr apart ↦ ground (arith, apart, later)
    ]

-- In any sequence of decisions and deletions, of any sessions and on any disbursements, at most one of
-- those on one disbursement changes its row, if each decision approves or rejects.
pub winners-at_most_one :
    (id : ℕ) (cs : List Change) (t : Tables) → All Decides cs → winners id cs t ≤ 1
unfolding winners
winners-at_most_one id [] t d = ground arith
winners-at_most_one id (c ∷ cs) t d =
    let later = winners-at_most_one id cs (run_change c t).1 d.1 in
    elim (Bool-cases (target c == id)) [
      | inl same ↦
          let here : target c ≡ id = ground (arith, same) in
          elim (run_change-wins c t d.0) [
            | inl lost ↦ ground (arith, same, lost, later)
            | inr shut ↦
                ground
                  (arith, same, winners-Closed id cs (run_change c t).1 d.1 (rw (sym here) shut))
          ]
      | inr apart ↦ ground (arith, apart, later)
    ]
