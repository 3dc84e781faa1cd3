-- ===== src/Repository/Errors.antt =====
-- internal/repository/errors.go: the category of an error, and the tests on it.
use Prim.Native.String.{String}
use text.Mathlib.Text.{◌==◌ as str_eq}
use disbursment_api.Base.{Bool, true, false, ◌||◌, if◌then◌else◌}
use disbursment_api.Failure.{
  ErrorCategory, not_found, conflict, constraint, dependency, Cause, no_rows, canceled,
  deadline_exceeded, postgres, plain, Failure, domain, repository, raw,
}

abbrev pub is_constraint_state : String → Bool
is_constraint_state state =
    str_eq state "23503" || str_eq state "23514" || str_eq state "22001" || str_eq state "22003"

abbrev pub category_of : Cause → ErrorCategory
category_of no_rows = not_found
category_of canceled = dependency
category_of deadline_exceeded = dependency
category_of (postgres state) =
    if str_eq state "23505"
    then conflict
    else if is_constraint_state state
    then constraint
    else dependency
category_of (plain message) = dependency

-- `Classify`. A domain error is none of the kinds that it knows.
unfoldable pub classify : Failure → Failure
classify (domain e) = repository dependency (plain "domain error")
classify (repository category cause) = repository category cause
classify (raw cause) = repository (category_of cause) cause

abbrev pub category_is_not_found : ErrorCategory → Bool
category_is_not_found not_found = true
category_is_not_found _ = false

abbrev pub category_is_conflict : ErrorCategory → Bool
category_is_conflict conflict = true
category_is_conflict _ = false

abbrev pub category_is_constraint : ErrorCategory → Bool
category_is_constraint constraint = true
category_is_constraint _ = false

abbrev pub cause_is_no_rows : Cause → Bool
cause_is_no_rows no_rows = true
cause_is_no_rows _ = false

unfoldable pub is_not_found : Failure → Bool
is_not_found (domain e) = false
is_not_found (repository category cause) = category_is_not_found category
is_not_found (raw cause) = cause_is_no_rows cause

unfoldable pub is_conflict : Failure → Bool
is_conflict (domain e) = false
is_conflict (repository category cause) = category_is_conflict category
is_conflict (raw cause) = false

unfoldable pub is_constraint : Failure → Bool
is_constraint (domain e) = false
is_constraint (repository category cause) = category_is_constraint category
is_constraint (raw cause) = false
