-- ===== src/Domain/Audit/Redaction.antt =====
-- internal/domain/audit.go, redactAuditValue: what redaction removes, and what it leaves in place.
use disbursment_api.Base.{
  ap, ◌≡◌, refl, Bool, true, false, ◌⊎◌, inl, inr, Bool-cases, Option, none, some, if◌then◌else◌,
}
use disbursment_api.Base.Int.{ℤ}
use disbursment_api.Base.Text.{Text, runes, text_eq, trim_space, to_lower, contains}
use disbursment_api.Sensitivity.{is_sensitive_key, holds_sensitive_word}
use disbursment_api.Domain.Disbursement.{Disbursement}
use disbursment_api.Domain.Audit.{
  Json, null, boolean, number, string, array, object, Items, nil, cons, Members, end, member,
  redacted_audit_value, redact_audit_value, redact_items, redact_members, Printer,
  disbursement_json,
}

-- No member with a sensitive key, at any depth, has a value other than the mark.
unfoldable mutual
  pub IsClean : Json → Type 0
  IsClean null = Unit
  IsClean (boolean b) = Unit
  IsClean (number n) = Unit
  IsClean (string s) = Unit
  IsClean (array xs) = IsCleanItems xs
  IsClean (object ms) = IsCleanMembers ms

  pub IsCleanItems : Items → Type 0
  IsCleanItems nil = Unit
  IsCleanItems (cons x xs) = IsClean x × IsCleanItems xs

  pub IsCleanMembers : Members → Type 0
  IsCleanMembers end = Unit
  IsCleanMembers (member key value ms) =
      ((is_sensitive_key key ≡ false) ⊎ (value ≡ redacted_audit_value))
      × IsClean value
      × IsCleanMembers ms

mutual
  unfolding redact_audit_value IsClean

  clean : (j : Json) → IsClean (redact_audit_value j)
  clean null = tt
  clean (boolean b) = tt
  clean (number n) = tt
  clean (string s) = tt
  clean (array xs) = clean_items xs
  clean (object ms) = clean_members ms

  clean_items : (xs : Items) → IsCleanItems (redact_items xs)
  clean_items nil = tt
  clean_items (cons x xs) = (clean x, clean_items xs)

  clean_members : (ms : Members) → IsCleanMembers (redact_members ms)
  clean_members end = tt
  clean_members (member key value ms) = elim (Bool-cases (is_sensitive_key key)) [
    | inl secret ↦ rw secret (inr refl, tt, clean_members ms)
    | inr open_key ↦ rw open_key (inl refl, clean value, clean_members ms)
  ]

mutual
  unfolding redact_audit_value

  again : (j : Json) → redact_audit_value (redact_audit_value j) ≡ redact_audit_value j
  again null = refl
  again (boolean b) = refl
  again (number n) = refl
  again (string s) = refl
  again (array xs) = ap array (again_items xs)
  again (object ms) = ap object (again_members ms)

  again_items : (xs : Items) → redact_items (redact_items xs) ≡ redact_items xs
  again_items nil = refl
  again_items (cons x xs) = cc (again x, again_items xs)

  again_members : (ms : Members) → redact_members (redact_members ms) ≡ redact_members ms
  again_members end = refl
  again_members (member key value ms) = elim (Bool-cases (is_sensitive_key key)) [
    | inl secret ↦ rw secret (cc (again_members ms))
    | inr open_key ↦ rw open_key (cc (again value, again_members ms))
  ]

-- A value and what is to be stored of it: every member is there, with the mark in place of its value where
-- its key is sensitive, and all else stays.
mutual
  pub data Masks : Json → Json → Type 0 where
    same_null : Masks null null
    same_boolean : (b : Bool) → Masks (boolean b) (boolean b)
    same_number : (n : ℤ) → Masks (number n) (number n)
    same_string : (s : Text) → Masks (string s) (string s)
    each_item : {xs ys : Items} → MasksItems xs ys → Masks (array xs) (array ys)
    each_member : {ms ns : Members} → MasksMembers ms ns → Masks (object ms) (object ns)

  pub data MasksItems : Items → Items → Type 0 where
    no_items : MasksItems nil nil
    an_item :
        {x y : Json} {xs ys : Items}
        → Masks x y
        → MasksItems xs ys
        → MasksItems (cons x xs) (cons y ys)

  pub data MasksMembers : Members → Members → Type 0 where
    no_members : MasksMembers end end
    masked :
        {key : Text} {value : Json} {ms ns : Members}
        → is_sensitive_key key ≡ true
        → MasksMembers ms ns
        → MasksMembers (member key value ms) (member key (string (runes "[REDACTED]")) ns)
    open_member :
        {key : Text} {value kept : Json} {ms ns : Members}
        → is_sensitive_key key ≡ false
        → Masks value kept
        → MasksMembers ms ns
        → MasksMembers (member key value ms) (member key kept ns)

mutual
  unfolding redact_audit_value

  masks : (j : Json) → Masks j (redact_audit_value j)
  masks null = same_null
  masks (boolean b) = same_boolean b
  masks (number n) = same_number n
  masks (string s) = same_string s
  masks (array xs) = each_item (masks_items xs)
  masks (object ms) = each_member (masks_members ms)

  masks_items : (xs : Items) → MasksItems xs (redact_items xs)
  masks_items nil = no_items
  masks_items (cons x xs) = an_item (masks x) (masks_items xs)

  masks_members : (ms : Members) → MasksMembers ms (redact_members ms)
  masks_members end = no_members
  masks_members (member key value ms) = elim (Bool-cases (is_sensitive_key key)) [
    | inl secret ↦ rw secret (masked secret (masks_members ms))
    | inr open_key ↦ rw open_key (open_member open_key (masks value) (masks_members ms))
  ]

-- Redaction puts the mark in place of the value of every member with a sensitive key, at any depth, keeps
-- every member, and leaves all else as it is; so no such member holds anything but the mark, and redacting
-- once more changes nothing.
pub redact_audit_value-Masks :
    (j : Json)
    → Masks j (redact_audit_value j)
      × IsClean (redact_audit_value j)
      × (redact_audit_value (redact_audit_value j) ≡ redact_audit_value j)
redact_audit_value-Masks j = (masks j, clean j, again j)

-- The value of a member, by its key.
unfoldable pub get_member : Text → Members → Option Json
get_member key end = none
get_member key (member k value ms) = if text_eq key k then some value else get_member key ms

abbrev pub members_of : Json → Members
members_of (object ms) = ms
members_of _ = end

-- The snapshot of a disbursement keeps its account number in clear: the member is spelled
-- `AccountNumber`, which holds none of the sensitive words.
pub disbursement_json-account_visible :
    (printer : Printer) (d : Disbursement)
    → get_member
        (runes "AccountNumber")
        (members_of (redact_audit_value (disbursement_json printer d)))
      ≡ some (string d.account_number)
unfolding redact_audit_value disbursement_json get_member text_eq is_sensitive_key
    holds_sensitive_word trim_space to_lower contains
disbursement_json-account_visible printer d = refl
