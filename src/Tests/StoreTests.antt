-- ===== src/Tests/StoreTests.antt =====
-- Theorems on internal/repository at concrete inputs.
use disbursment_api.Base.{
  ◌≡◌, ◌↔◌, ◌≤◌, refl, true, false, none, some, List, [], ◌∷◌, find, count, take, arith, inl, Bool,
  ◌*◌,
}
use mathlib.Core.List.Perm
use disbursment_api.Base.Ordered.{IsArranged, HasNoTies}
use disbursment_api.Base.Text.{Text, runes, text_eq, to_lower, trim_space}
use disbursment_api.Domain.Disbursement.{is_digit, is_bank_code_rune}
use disbursment_api.Repository.Tables.{DbDisbursement, Tables}
use disbursment_api.Repository.World.{returned}
use disbursment_api.Repository.Disbursements.{
  update_status_statement, soft_delete_statement, has_id, to_row, broken_constraint, lengths_fit,
  money_check, state_check,
}
use disbursment_api.Repository.Disbursements.Outcomes.{
  IsSound, row_of, decide_by_rules, delete_by_rules, update_status_statement-decide_by_rules,
  soft_delete_statement-delete_by_rules,
}
use disbursment_api.Repository.Disbursements.Listing.{is_listed, listed_rows, sort_column}
use disbursment_api.Repository.Disbursements.Listing.Ordering.{goes_before}
use disbursment_api.Repository.Disbursements.Listing.Paging.{
  first_pages, page_size, first_pages-prefix,
}
use disbursment_api.Repository.Disbursements.Winner
use disbursment_api.Repository.Disbursements.Winner.{winners, winners-at_most_one}
use disbursment_api.Repository.IdempotencyKeys.{
  same_scope, at_scope, classify_claim, reclaimable, complete_statement,
}
use disbursment_api.Repository.IdempotencyKeys.Claims.{classify_claim-none_iff}
use disbursment_api.Repository.IdempotencyKeys.Fencing
use disbursment_api.Repository.IdempotencyKeys.Fencing.{
  KeyStatement, Stores, run_statements, run_statements-Stores, run_statements-Stores_leased,
}
use disbursment_api.Repository.IdempotencyKeys.Ownership.{complete_statement-stale}
use disbursment_api.Repository.Outbox.{
  default_retention, is_in, fetch_statement, available, order, place,
}
use disbursment_api.Repository.Outbox.Delivery.{
  OutboxStatement, fetch, record_failure, cleanup, hands_out, run_all, fetch_statement-leased,
}
use disbursment_api.Repository.Sessions.{with_hash}
use disbursment_api.Repository.Sessions.Rotation
use disbursment_api.Repository.Sessions.Rotation.{
  SessionStatement, rotations, rotations-at_most_one,
}
use disbursment_api.Tests.Samples.{
  sample_tables, completed_tables, sample_claim, completed_claim, sample_request, sample_scope,
  sample_completion, sample_decision, sample_disbursement, sample_filter, sample_server,
  next_session,
}

sample_tables-IsSound : IsSound sample_tables
unfolding broken_constraint lengths_fit money_check state_check is_digit is_bank_code_rune
sample_tables-IsSound = record { unique = (refl, tt); constraints = (refl, tt) }

update_status_statement-decide_by_rules_example :
    let answer = update_status_statement 1 sample_decision 400 sample_tables in
    let by_rules =
      decide_by_rules 1 sample_decision 400
        (find (has_id 1) sample_tables.disbursements)
        sample_tables in
    (row_of answer ≡ row_of by_rules) × (answer.1 ≡ by_rules.1)
update_status_statement-decide_by_rules_example =
    update_status_statement-decide_by_rules 1 400 sample_tables sample_tables-IsSound
      sample_decision
      (record { note_fits = ground arith; note_storable = refl; actor_known = refl })

soft_delete_statement-delete_by_rules_example :
    soft_delete_statement 1 400 sample_tables
    ≡ delete_by_rules 1 400 (find (has_id 1) sample_tables.disbursements) sample_tables
soft_delete_statement-delete_by_rules_example =
    soft_delete_statement-delete_by_rules 1 400 sample_tables sample_tables-IsSound

abbrev rivals : List Winner.Change
rivals =
    Winner.decide 1 sample_decision 400
    ∷ Winner.delete 1 401
    ∷ Winner.decide 1 sample_decision 402
    ∷ []

winners-at_most_one_example : winners 1 rivals sample_tables ≤ 1
winners-at_most_one_example =
    winners-at_most_one 1 rivals sample_tables (inl refl, (tt, (inl refl, tt)))

sample_tables-Stores : Stores sample_claim sample_tables
unfolding same_scope text_eq
sample_tables-Stores = refl

completed_tables-Stores : Stores completed_claim completed_tables
unfolding same_scope text_eq
completed_tables-Stores = refl

abbrev intrusions : List KeyStatement
intrusions =
    Fencing.insert_claim sample_request
    ∷ Fencing.reclaim sample_request
    ∷ Fencing.complete sample_completion
    ∷ Fencing.release sample_scope 42
    ∷ []

run_statements-Stores_example : Stores completed_claim (run_statements intrusions completed_tables)
run_statements-Stores_example =
    run_statements-Stores completed_claim completed_tables intrusions completed_tables-Stores refl
      (tt, (ground arith, (tt, (tt, tt))))

run_statements-Stores_leased_example : Stores sample_claim (run_statements intrusions sample_tables)
run_statements-Stores_leased_example =
    run_statements-Stores_leased sample_claim sample_tables intrusions sample_tables-Stores
      (ground arith) (tt, (ground arith, (ground arith, (ground arith, tt))))

at_scope-sample : at_scope sample_scope sample_claim ≡ true
unfolding same_scope text_eq
at_scope-sample = refl

classify_claim-none_iff_example :
    (classify_claim (λ s. true) sample_claim sample_request ≡ none)
    ↔ (reclaimable sample_request sample_claim ≡ true)
classify_claim-none_iff_example =
    classify_claim-none_iff (λ s. true) sample_claim sample_request at_scope-sample

complete_statement-stale_example :
    complete_statement sample_completion sample_tables ≡ (returned 0, sample_tables)
complete_statement-stale_example =
    complete_statement-stale sample_tables (refl, tt) sample_scope sample_claim sample_tables-Stores
      42 (ground arith) sample_completion refl refl

abbrev leased_tables : Tables
leased_tables = (fetch_statement (λ id. false) 500 150 50 sample_tables).1

sample_event-handed_out :
    hands_out 21 (fetch_statement (λ id. false) 500 150 50 sample_tables).0 ≡ true
unfolding hands_out fetch_statement is_in available order place
sample_event-handed_out = refl

-- Another worker fetches, projects what it got, fails with another event and cleans up.
abbrev meanwhile : List OutboxStatement
meanwhile =
    fetch (λ id. false) 700 200 50
    ∷ record_failure 22 "connection refused" 260
    ∷ cleanup 300 default_retention
    ∷ []

fetch_statement-leased_example :
    hands_out 21 (fetch_statement (λ id. false) 800 400 50 (run_all meanwhile leased_tables)).0
    ≡ false
fetch_statement-leased_example =
    fetch_statement-leased 21 (λ id. false) (λ id. false) 500 150 50 800 400 50 sample_tables
      meanwhile sample_event-handed_out (ground arith, (refl, (tt, tt))) (ground arith)

abbrev thieves : List SessionStatement
thieves =
    Rotation.insert next_session 150
    ∷ Rotation.rotate (runes "aa") 150 52
    ∷ Rotation.rotate (runes "aa") 151 53
    ∷ Rotation.revoke (runes "aa") 152
    ∷ []

one_session : count (with_hash (runes "aa")) sample_tables.refresh_sessions ≤ 1
unfolding text_eq
one_session = ground arith

rotations-at_most_one_example : rotations (runes "aa") thieves sample_tables ≤ 1
rotations-at_most_one_example = rotations-at_most_one (runes "aa") thieves sample_tables one_session

-- Three disbursements, the second of them deleted.
abbrev listed_tables : Tables
listed_tables = record sample_tables {
  disbursements =
      to_row sample_disbursement
      ∷ (record (to_row sample_disbursement) { id = 2; deleted_at = some 9 })
      ∷ (record (to_row sample_disbursement) { id = 3; created_at = 90 })
      ∷ [];
}

abbrev listed : List DbDisbursement
listed =
    to_row sample_disbursement
    ∷ (record (to_row sample_disbursement) { id = 3; created_at = 90 })
    ∷ []

abbrev as_listed : Text → Text → Bool
as_listed a b = true

listed-IsArranged : IsArranged (goes_before as_listed sample_filter) listed listed
unfolding goes_before to_row sort_column text_eq to_lower
listed-IsArranged = record { same_elements = Perm.refl listed; ordered = ((refl, tt), (tt, tt)) }

listed-HasNoTies : HasNoTies (goes_before as_listed sample_filter) listed
unfolding goes_before to_row sort_column text_eq to_lower
listed-HasNoTies =
    ((λ a b. refl, (λ a b. absurd (cc b), tt)), ((λ a b. absurd (cc a), (λ a b. refl, tt)), tt))

first_pages-prefix_example :
    first_pages sample_server (λ page. sample_server.arrange) sample_filter listed_tables 2
    ≡ take (2 * page_size sample_filter) listed
unfolding listed_rows is_listed to_row trim_space
first_pages-prefix_example =
    first_pages-prefix as_listed sample_server (λ page. sample_server.arrange) sample_filter
      listed_tables listed 2 listed-IsArranged (λ page. listed-IsArranged) listed-HasNoTies refl
      (omega arith)
