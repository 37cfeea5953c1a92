-- ===== src/Domain/Types.antt =====
-- internal/domain: errors.go, job.go, application.go, application_note.go, api_key.go, webhook.go.
-- A Go string type is `Text`, a pointer is an `Option`, and a time is the number of its seconds.
use job_board.Prelude.{ℕ, Bool, true, false, List, Option, ◌++◌, if◌then◌else◌}
use job_board.Prelude.Int.{ℤ}
use job_board.Text.{Text, txt, text_eq}
use job_board.Domain.Values.{Value}

-- errors.go
pub record ErrorDetail : Type 0 where
  pub field : Text
  pub issue : Text

-- The errors that callers tell apart; `other` is any other error, by its message, and `wrapped` is
-- what fmt.Errorf makes of an error with %w.
pub data DomainError : Type 0 where
  not_found conflict invalid_input unauthorized forbidden internal unsupported_media_type :
      DomainError
  validation_error : Text → List ErrorDetail → DomainError
  other : Text → DomainError
  wrapped : Text → DomainError → DomainError

-- `errors.Is(err, ErrNotFound)` and `errors.Is(err, ErrUnsupportedMediaType)`
abbrev pub is_not_found : DomainError → Bool
is_not_found not_found = true
is_not_found (wrapped message err) = is_not_found err
is_not_found _ = false

abbrev pub is_unsupported_media_type : DomainError → Bool
is_unsupported_media_type unsupported_media_type = true
is_unsupported_media_type (wrapped message err) = is_unsupported_media_type err
is_unsupported_media_type _ = false

-- `err.Error()`
abbrev pub error_message : DomainError → Text
error_message not_found = txt "resource not found"
error_message conflict = txt "resource already exists or conflict detected"
error_message invalid_input = txt "invalid input"
error_message unauthorized = txt "unauthorized"
error_message forbidden = txt "forbidden"
error_message internal = txt "internal error"
error_message unsupported_media_type = txt "unsupported media type"
error_message (validation_error message details) =
    if text_eq message (txt "") then txt "validation error" else message
error_message (other message) = message
error_message (wrapped message err) = message ++ (txt ": " ++ error_message err)

-- A value, or an error.
pub data Result {ℓ} (A : Type ℓ) : Type ℓ where
  ok : A → Result A
  err : DomainError → Result A

-- A finite float64 is a multiple of 2^-1074, and the integer is that multiple.
abbrev pub Float64 : Type 0
Float64 = ℤ

abbrev pub Time : Type 0
Time = ℕ

abbrev pub JobStatus : Type 0
JobStatus = Text

abbrev pub status_draft : JobStatus
status_draft = txt "draft"

abbrev pub status_published : JobStatus
status_published = txt "published"

abbrev pub status_archived : JobStatus
status_archived = txt "archived"

abbrev pub EmploymentType : Type 0
EmploymentType = Text

abbrev pub full_time : EmploymentType
full_time = txt "full_time"

abbrev pub part_time : EmploymentType
part_time = txt "part_time"

abbrev pub contract : EmploymentType
contract = txt "contract"

abbrev pub internship : EmploymentType
internship = txt "internship"

pub record CustomField : Type 0 where
  pub id : Text
  pub label : Text
  pub type : Text
  pub required : Bool
  pub options : List Text

pub record Job : Type 0 where
  pub id : Text
  pub slug : Text
  pub title : Text
  pub department : Text
  pub location : Text
  pub employment_type : EmploymentType
  pub experience_level : Option Text
  pub salary_min : Option Float64
  pub salary_max : Option Float64
  pub salary_currency : Text
  pub description_markdown : Text
  pub status : JobStatus
  pub custom_fields : List CustomField
  pub created_at : Time
  pub updated_at : Time
  pub published_at : Option Time

pub record JobListFilter : Type 0 where
  pub department : Text
  pub location : Text
  pub employment_type : EmploymentType
  pub status : JobStatus
  pub page : ℤ
  pub limit : ℤ

abbrev pub ApplicationStage : Type 0
ApplicationStage = Text

abbrev pub stage_applied : ApplicationStage
stage_applied = txt "applied"

abbrev pub stage_screening : ApplicationStage
stage_screening = txt "screening"

abbrev pub stage_interviewing : ApplicationStage
stage_interviewing = txt "interviewing"

abbrev pub stage_offer : ApplicationStage
stage_offer = txt "offer"

abbrev pub stage_hired : ApplicationStage
stage_hired = txt "hired"

abbrev pub stage_rejected : ApplicationStage
stage_rejected = txt "rejected"

pub record Application : Type 0 where
  pub id : Text
  pub job_id : Text
  pub candidate_name : Text
  pub candidate_email : Text
  pub candidate_phone : Option Text
  pub linkedin_url : Option Text
  pub resume_s3_key : Text
  pub resume_filename : Text
  pub custom_answers : List (Text × Value)
  pub stage : ApplicationStage
  pub rejected_reason : Option Text
  pub created_at : Time
  pub updated_at : Time

pub record ApplicationListFilter : Type 0 where
  pub job_id : Text
  pub stage : ApplicationStage
  pub candidate_email : Text
  pub page : ℤ
  pub limit : ℤ

pub record ApplicationNote : Type 0 where
  pub id : Text
  pub application_id : Text
  pub author_name : Text
  pub note_text : Text
  pub created_at : Time

abbrev pub ApiKeyScope : Type 0
ApiKeyScope = Text

abbrev pub scope_public : ApiKeyScope
scope_public = txt "public"

abbrev pub scope_admin : ApiKeyScope
scope_admin = txt "admin"

pub record ApiKey : Type 0 where
  pub id : Text
  pub name : Text
  pub key_hash : Text
  pub key_prefix : Text
  pub scope : ApiKeyScope
  pub created_at : Time
  pub last_used_at : Option Time

abbrev pub event_job_published : Text
event_job_published = txt "job.published"

abbrev pub event_job_archived : Text
event_job_archived = txt "job.archived"

abbrev pub event_application_created : Text
event_application_created = txt "application.created"

abbrev pub event_application_stage_updated : Text
event_application_stage_updated = txt "application.stage_updated"

abbrev pub event_application_rejected : Text
event_application_rejected = txt "application.rejected"

abbrev pub event_webhook_ping : Text
event_webhook_ping = txt "webhook.ping"

abbrev pub event_all : Text
event_all = txt "*"

pub record WebhookSubscription : Type 0 where
  pub id : Text
  pub target_url : Text
  pub secret_token : Text
  pub events : List Text
  pub is_active : Bool
  pub created_at : Time
  pub updated_at : Time
