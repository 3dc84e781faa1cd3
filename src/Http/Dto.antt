-- ===== src/Http/Dto.antt =====
-- internal/httpapi/dto/auth.go and internal/httpapi/dto/disbursement.go.
use Prim.Native.String.{String}
use disbursment_api.Base.{ℕ, Option, none, some, List, [], ◌∷◌, ◌==◌, if◌then◌else◌}
use disbursment_api.Base.Int.{ℤ}
use disbursment_api.Base.Text.{Text}
use disbursment_api.Domain.Disbursement.{DisbursementStatus, Disbursement}
use disbursment_api.Http.Validation.{Field, Value, str, int}

pub record LoginRequest : Type 0 where
  pub username : Text
  pub password : Text

pub record RefreshRequest : Type 0 where
  pub refresh_token : Text

pub record CreateDisbursementRequest : Type 0 where
  pub recipient_name : Text
  pub account_number : Text
  pub bank_code : Text
  pub amount : ℤ
  pub note : Text

pub record UpdateDisbursementStatusRequest : Type 0 where
  pub status : Text
  pub note : Text

pub record ListDisbursementsQuery : Type 0 where
  pub page : ℤ
  pub limit : ℤ
  pub status : Text
  pub search : Text
  pub sort_by : Text
  pub sort_order : Text
  pub date_from : Text
  pub date_to : Text

abbrev field : String → String → String → Value → Field
field go_name json validate value = record {
  go_name = go_name;
  json = json;
  validate = validate;
  value = value;
}

-- The fields of each request, with their tags.
unfoldable pub login_fields : LoginRequest → List Field
login_fields r =
    field "Username" "username" "required,maxchars=100" (str r.username)
    ∷ field "Password" "password" "required,maxchars=256" (str r.password)
    ∷ []

unfoldable pub refresh_fields : RefreshRequest → List Field
refresh_fields r =
    field "RefreshToken" "refresh_token" "required,maxchars=4096" (str r.refresh_token) ∷ []

unfoldable pub create_fields : CreateDisbursementRequest → List Field
create_fields r =
    field "RecipientName" "recipient_name" "required,maxchars=150" (str r.recipient_name)
    ∷ field "AccountNumber" "account_number" "required,numeric,min=6,max=34" (str r.account_number)
    ∷ field "BankCode" "bank_code" "required,alphanum,min=3,max=10" (str r.bank_code)
    ∷ field "Amount" "amount" "gte=10000,lte=100000000000" (int r.amount)
    ∷ field "Note" "note" "omitempty,maxchars=500" (str r.note)
    ∷ []

unfoldable pub status_fields : UpdateDisbursementStatusRequest → List Field
status_fields r =
    field "Status" "status" "required,oneof=APPROVED REJECTED" (str r.status)
    ∷ field "Note" "note" "omitempty,maxchars=500" (str r.note)
    ∷ []

unfoldable pub query_fields : ListDisbursementsQuery → List Field
query_fields q =
    field "Page" "" "omitempty,gte=1" (int q.page)
    ∷ field "Limit" "" "omitempty,gte=1,lte=100" (int q.limit)
    ∷ field "Status" "" "omitempty,oneof=PENDING APPROVED REJECTED" (str q.status)
    ∷ field "Search" "" "omitempty,maxchars=150" (str q.search)
    ∷ field "SortBy" "" "omitempty,oneof=created_at amount recipient_name status" (str q.sort_by)
    ∷ field "SortOrder" "" "omitempty,oneof=asc desc" (str q.sort_order)
    ∷ field "DateFrom" "" "omitempty,datetime=2006-01-02" (str q.date_from)
    ∷ field "DateTo" "" "omitempty,datetime=2006-01-02" (str q.date_to)
    ∷ []

pub record DisbursementResponse : Type 0 where
  pub id : ℕ
  pub recipient_name : Text
  pub account_number : Text
  pub bank_code : Text
  pub amount : ℤ
  pub admin_fee : ℤ
  pub status : DisbursementStatus
  pub note : Text
  pub created_by : ℕ
  pub decided_by : Option ℕ
  pub approved_by : Option ℕ
  pub decision_note : Text
  pub decided_at : Option ℕ
  pub created_at : ℕ
  pub updated_at : ℕ

unfoldable pub new_disbursement_response : Disbursement → DisbursementResponse
new_disbursement_response d =
    let decider = if d.decided_by == 0 then none else some d.decided_by in
    record {
      id = d.id;
      recipient_name = d.recipient_name;
      account_number = d.account_number;
      bank_code = d.bank_code;
      amount = d.amount;
      admin_fee = d.admin_fee;
      status = d.status;
      note = d.note;
      created_by = d.created_by;
      decided_by = decider;
      approved_by = decider;
      decision_note = d.decision_note;
      decided_at = d.decided_at;
      created_at = d.created_at;
      updated_at = d.updated_at;
    }
