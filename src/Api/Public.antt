-- ===== src/Api/Public.antt =====
-- internal/api/v1/public.go. What JSON decoding, the multipart form and the router give is an argument.
pub mod Published
pub mod Submitted
use job_board.Prelude.{
  ℕ, Bool, true, false, not, List, [], ◌∷◌, ◌++◌, Option, none, some, if◌then◌else◌, is_empty,
}
use job_board.Prelude.Int.{ℤ, pos, negsuc}
use job_board.Text.{Text, txt, text_eq, trim_space}
use job_board.Domain.Types.{
  ErrorDetail, DomainError, Job, JobListFilter, Application, ApplicationStage, Time, Result, ok,
  err,
}
use job_board.Domain.Values.{Platform, Value}
use job_board.Domain.Answers.{Answers}
use job_board.Storage.Resume.{Reader}
use job_board.Service.World.{World, JobRepository, ApplicationRepository}
use job_board.Service.Jobs.{get_published_job, list_published_jobs, list_departments}
use job_board.Service.Applications.{ApplyInput, Storage, apply}
use job_board.Store.Database.{to_ℕ}
use job_board.Api.Responses.{
  Response, answer, failure, invalid, missing, Cases, respond_error, respond, Paginated,
  respond_page,
}
use job_board.Api.Queries.{parse_job_list_query}

-- The cases of a handler that tells no error apart, and of one that knows only not found.
abbrev pub only_internal : Text → Cases
only_internal message = record {
  not_found_message = none;
  conflict_message = none;
  media_message = none;
  validates = false;
  internal_message = message;
}

abbrev pub or_missing : Text → Text → Cases
or_missing message internal = record (only_internal internal) { not_found_message = some message }

module _ {S : Type 0} (jobs : JobRepository S) where
  -- `ListJobs`
  unfoldable pub list_jobs_handler : (Text → Text) → S → Response (Paginated Job)
  unfolding respond_page parse_job_list_query list_published_jobs
  list_jobs_handler query s =
      let parsed = parse_job_list_query query in
      let filter = parsed.0 in
      if not (is_empty parsed.1)
      then invalid parsed.1
      else respond_page (only_internal (txt "Failed to retrieve job listings.")) (to_ℕ filter.page)
          (to_ℕ filter.limit) (list_published_jobs jobs filter s)

  -- `GetJob`
  unfoldable pub get_job_handler : Text → S → Response Job
  unfolding respond get_published_job
  get_job_handler slug_or_id s =
      if text_eq (trim_space slug_or_id) (txt "")
      then missing (txt "The requested job posting was not found.")
      else respond
          (or_missing (txt "The requested job posting was not found.")
            (txt "Failed to retrieve job details."))
          (answer 200 none) (get_published_job jobs (trim_space slug_or_id) s)

  -- `ListDepartments`
  unfoldable pub list_departments_handler : S → Response (List Text)
  unfolding respond list_departments
  list_departments_handler s =
      respond (only_internal (txt "Failed to retrieve departments.")) (answer 200 none)
        (list_departments jobs s)

-- What ParseMultipartForm gives: an error, or the values of the form and the file of the resume, with
-- its name and size, if FormFile gives one.
pub data Form : Type 0 where
  too_large malformed : Form
  parsed : (Text → Text) → Option (Text × (ℤ × Reader)) → Form

-- `ApplicationSubmissionResponse`
pub record ApplicationSubmissionResponse : Type 0 where
  pub id : Text
  pub job_id : Text
  pub candidate_name : Text
  pub candidate_email : Text
  pub candidate_phone : Option Text
  pub linkedin_url : Option Text
  pub resume_filename : Text
  pub custom_answers : List (Text × Value)
  pub stage : ApplicationStage
  pub created_at : Time
  pub message : Text

unfoldable pub submission : Application → ApplicationSubmissionResponse
submission app = record {
  id = app.id;
  job_id = app.job_id;
  candidate_name = app.candidate_name;
  candidate_email = app.candidate_email;
  candidate_phone = app.candidate_phone;
  linkedin_url = app.linkedin_url;
  resume_filename = app.resume_filename;
  custom_answers = app.custom_answers;
  stage = app.stage;
  created_at = app.created_at;
  message = txt "Application submitted successfully";
}

abbrev not_blank : Text → Option Text
not_blank s = if text_eq (trim_space s) (txt "") then none else some (trim_space s)

abbrev file_name : Option (Text × (ℤ × Reader)) → Text
file_name none = txt ""
file_name (some (name, file)) = name

abbrev file_size : Option (Text × (ℤ × Reader)) → ℤ
file_size none = pos 0
file_size (some (name, (size, reader))) = size

abbrev file_reader : Option (Text × (ℤ × Reader)) → Option Reader
file_reader none = none
file_reader (some (name, (size, reader))) = some reader

-- The input of `Apply` from a form; the answers are none where they are blank.
unfoldable pub apply_input :
    Text → (Text → Text) → Option (Text × (ℤ × Reader)) → Answers → ApplyInput
apply_input job value file answers = record {
  job_id_or_slug = job;
  candidate_name = trim_space (value (txt "candidate_name"));
  candidate_email = trim_space (value (txt "candidate_email"));
  candidate_phone = not_blank (value (txt "candidate_phone"));
  linkedin_url = not_blank (value (txt "linkedin_url"));
  resume_filename = file_name file;
  resume_size = file_size file;
  resume_reader = file_reader file;
  custom_answers = answers;
}

abbrev pub apply_cases : Cases
apply_cases = record {
  not_found_message = some (txt "The requested job was not found or is not active.");
  conflict_message = none;
  media_message = some (txt "Resume upload is not an allowed MIME type (PDF, DOC, DOCX).");
  validates = true;
  internal_message = txt "Failed to submit application.";
}

abbrev bad_form : Text → Text → Response ApplicationSubmissionResponse
bad_form field issue = invalid (record { field = field; issue = issue } ∷ [])

abbrev pub submitted : Result Application → Response ApplicationSubmissionResponse
submitted (err e) = respond_error apply_cases e
submitted (ok app) = answer 201 (some (txt "/v1/admin/applications/" ++ app.id)) (submission app)

module _ (P : Platform) {S : Type 0} (jobs : JobRepository S) (apps : ApplicationRepository S)
    (storage : Option (Storage S)) (webhooks : Bool) (decode_answers : Text → Option Answers) where
  abbrev pub with_answers :
      DomainError
      → Text
      → Text
      → (Text → Text)
      → Option (Text × (ℤ × Reader))
      → Option Answers
      → World S
      → Response ApplicationSubmissionResponse × World S
  with_answers read_error id job value file none w =
      (bad_form (txt "custom_answers") (txt "custom_answers must be a valid JSON object"), w)
  with_answers read_error id job value file (some answers) w =
      let done =
        apply P jobs apps storage webhooks read_error id (apply_input job value file answers) w in
      (submitted done.0, done.1)

  abbrev pub with_form :
      DomainError → Text → Text → Form → World S → Response ApplicationSubmissionResponse × World S
  with_form read_error id job too_large w =
      (bad_form (txt "resume") (txt "File exceeds the maximum allowed size of 10MB"), w)
  with_form read_error id job malformed w =
      (bad_form (txt "Content-Type") (txt "Invalid multipart/form-data request body"), w)
  with_form read_error id job (parsed value file) w =
      let raw = trim_space (value (txt "custom_answers")) in
      with_answers read_error id job value file
        (if text_eq raw (txt "") then some [] else decode_answers raw) w

  -- `Apply`, with the fresh id that the service draws.
  unfoldable pub apply_handler :
      DomainError → Text → Text → Form → World S → Response ApplicationSubmissionResponse × World S
  unfolding apply apply_input submission respond_error
  apply_handler read_error id job_id form w =
      if text_eq (trim_space job_id) (txt "")
      then (missing (txt "The requested job was not found or is not active."), w)
      else with_form read_error id (trim_space job_id) form w
