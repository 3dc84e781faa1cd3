-- ===== src/Sensitivity.antt =====
-- internal/sensitivity/sensitivity.go: the keys whose values are never shown.
use disbursment_api.Base.{Bool, ◌||◌}
use disbursment_api.Base.Text.{Text, runes, trim_space, to_lower, contains}

-- The tests on a key that has been trimmed and lower-cased.
unfoldable pub holds_sensitive_word : Text → Bool
holds_sensitive_word normalized =
    contains normalized (runes "password")
    || contains normalized (runes "authorization")
    || contains normalized (runes "account_number")
    || contains normalized (runes "bank_account")
    || contains normalized (runes "email")
    || contains normalized (runes "phone")
    || contains normalized (runes "tax_id")
    || contains normalized (runes "token")

unfoldable pub is_sensitive_key : Text → Bool
is_sensitive_key key = holds_sensitive_word (to_lower (trim_space key))
