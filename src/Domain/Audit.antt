-- ===== src/Domain/Audit.antt =====
-- internal/domain/audit.go: audit events and the redaction of their snapshots. `Json` is what
-- encoding/json decodes into `any`; an object's members are in some order.
pub mod Redaction
use disbursment_api.Base.{
  ℕ, Bool, true, false, ◌||◌, Option, none, some, List, [], ◌∷◌, ◌==◌, if◌then◌else◌,
}
use disbursment_api.Base.Text.{Text, runes, is_empty, trim_space}
use disbursment_api.Base.Int.{ℤ}
use disbursment_api.Failure.{Failure, raw, plain, Result, ok, err}
use disbursment_api.Sensitivity.{is_sensitive_key}
use disbursment_api.Domain.Disbursement.{
  DisbursementStatus, pending, approved, rejected, other_status, Disbursement,
}

mutual
  pub data Json : Type 0 where
    null : Json
    boolean : Bool → Json
    number : ℤ → Json
    string : Text → Json
    array : Items → Json
    object : Members → Json

  pub data Items : Type 0 where
    nil : Items
    cons : Json → Items → Items

  pub data Members : Type 0 where
    end : Members
    member : Text → Json → Members → Members

abbrev pub redacted_audit_value : Json
redacted_audit_value = string (runes "[REDACTED]")

unfoldable mutual
  pub redact_audit_value : Json → Json
  redact_audit_value null = null
  redact_audit_value (boolean b) = boolean b
  redact_audit_value (number n) = number n
  redact_audit_value (string s) = string s
  redact_audit_value (array xs) = array (redact_items xs)
  redact_audit_value (object ms) = object (redact_members ms)

  pub redact_items : Items → Items
  redact_items nil = nil
  redact_items (cons x xs) = cons (redact_audit_value x) (redact_items xs)

  pub redact_members : Members → Members
  redact_members end = end
  redact_members (member key nested ms) =
      member key (if is_sensitive_key key then redacted_audit_value else redact_audit_value nested)
        (redact_members ms)

-- How google/uuid and time.Time print themselves into JSON.
pub record Printer : Type 0 where
  pub uuid_text : ℕ → Text
  pub time_text : ℕ → Text

abbrev status_text : DisbursementStatus → Text
status_text pending = runes "PENDING"
status_text approved = runes "APPROVED"
status_text rejected = runes "REJECTED"
status_text (other_status s) = s

abbrev optional_time : Printer → Option ℕ → Json
optional_time printer none = null
optional_time printer (some t) = string (printer.time_text t)

-- `json.Marshal` of a `Disbursement`: the struct has no tags, so its members have the fields' names.
unfoldable pub disbursement_json : Printer → Disbursement → Json
disbursement_json printer d = object (
    member (runes "ID") (string (printer.uuid_text d.id)) (
      member (runes "RecipientName") (string d.recipient_name) (
        member (runes "AccountNumber") (string d.account_number) (
          member (runes "BankCode") (string d.bank_code) (
            member (runes "Amount") (number d.amount) (
              member (runes "AdminFee") (number d.admin_fee) (
                member (runes "Status") (string (status_text d.status)) (
                  member (runes "Note") (string d.note) (
                    member (runes "CreatedBy") (string (printer.uuid_text d.created_by)) (
                      member (runes "DecidedBy") (string (printer.uuid_text d.decided_by)) (
                        member (runes "DecisionNote") (string d.decision_note) (
                          member (runes "DecidedAt") (optional_time printer d.decided_at) (
                            member (runes "DeletedAt") (optional_time printer d.deleted_at) (
                              member (runes "CreatedAt") (string (printer.time_text d.created_at)) (
                                member (runes "UpdatedAt") (string (printer.time_text d.updated_at))
                                  end)))))))))))))))

-- `none` is a nil value, and the nil snapshot of one.
unfoldable pub audit_snapshot : Option Json → Option Json
audit_snapshot none = none
audit_snapshot (some value) = some (redact_audit_value value)

pub record AuditEvent : Type 0 where
  pub event_id : ℕ
  pub entity_type : Text
  pub entity_id : ℕ
  pub action : Text
  pub actor_id : ℕ
  pub request_id : ℕ
  pub before_data : Option Json
  pub after_data : Option Json
  pub occurred_at : ℕ

unfoldable pub new_audit_event :
    ℕ → Text → ℕ → Text → ℕ → ℕ → Option Json → Option Json → ℕ → Result AuditEvent
new_audit_event event_id entity_type entity_id action actor_id request_id before after occurred_at =
    if event_id == 0
      || entity_id == 0
      || actor_id == 0
      || request_id == 0
      || is_empty (trim_space entity_type)
      || is_empty (trim_space action)
      || occurred_at == 0
    then err (raw (plain "invalid audit event"))
    else ok (record {
      event_id = event_id;
      entity_type = entity_type;
      entity_id = entity_id;
      action = action;
      actor_id = actor_id;
      request_id = request_id;
      before_data = audit_snapshot before;
      after_data = audit_snapshot after;
      occurred_at = occurred_at;
    })
