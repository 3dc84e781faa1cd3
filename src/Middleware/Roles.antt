-- ===== src/Middleware/Roles.antt =====
-- internal/domain/auth.go and internal/httpapi/middleware/rbac.go: roles, and who may pass.
use disbursment_api.Base.{ℕ, Bool, false, ◌||◌, Option, none, some, List, [], ◌∷◌, if◌then◌else◌}
use disbursment_api.Base.Text.{Text, text_eq, runes}
use disbursment_api.Failure.{domain, Result, ok, err}
use disbursment_api.Domain.Errors.{unauthorized, forbidden}

-- A role is any text; three are valid.
abbrev pub UserRole : Type 0
UserRole = Text

unfoldable pub role_valid : UserRole → Bool
role_valid role =
    text_eq role (runes "OPERATOR")
    || text_eq role (runes "ADMIN")
    || text_eq role (runes "SUPERADMIN")

pub record UserIdentity : Type 0 where
  pub id : ℕ
  pub username : Text
  pub role : UserRole

unfoldable pub is_allowed : UserRole → List UserRole → Bool
is_allowed role [] = false
is_allowed role (r ∷ rs) = text_eq r role || is_allowed role rs

-- `RequireRole`: the request goes on with its identity, or is answered with an error.
unfoldable pub require_role : List UserRole → Option UserIdentity → Result UserIdentity
require_role allowed_roles none = err (domain unauthorized)
require_role allowed_roles (some identity) =
    if is_allowed identity.role allowed_roles then ok identity else err (domain forbidden)
