-- ===== src/Service/Applications.antt =====
-- internal/service/application_service.go
pub mod Apply
use job_board.Prelude.{
  ℕ, Bool, true, false, not, ◌&&◌, ◌||◌, List, [], ◌∷◌, ◌++◌, Option, none, some, ◌==◌,
  if◌then◌else◌, is_empty, length,
}
use job_board.Prelude.Int.{ℤ, pos, ltb_ℤ}
use job_board.Text.{Text, txt, text_eq, trim_space}
use job_board.Domain.Types.{
  ErrorDetail, DomainError, not_found, internal, unsupported_media_type, validation_error, other,
  wrapped, is_not_found, is_unsupported_media_type, error_message, Result, ok, err, Time, Job,
  status_published, Application, ApplicationStage, ApplicationListFilter, ApplicationNote,
  stage_applied, stage_rejected, event_application_created, event_application_stage_updated,
  event_application_rejected,
}
use job_board.Domain.Values.{Platform, Value}
use job_board.Domain.Report.{report}
use job_board.Domain.Candidate.{validate_candidate_input}
use job_board.Domain.Answers.{Answers, validate_custom_answers}
use job_board.Domain.Requests.{validate_stage_update, validate_note_input}
use job_board.Storage.Names.{generate_resume_key}
use job_board.Storage.Resume.{Reader, ValidationResult, max_resume_size, is_zero, validate_resume}
use job_board.Service.World.{
  World, emit, EventData, application_created, stage_updated, rejected, JobRepository,
  ApplicationRepository, NoteRepository,
}
use job_board.Service.Paging.{page_of, limit_of}
use job_board.Service.Jobs.{validation_message}

pub record ApplyInput : Type 0 where
  pub job_id_or_slug : Text
  pub candidate_name : Text
  pub candidate_email : Text
  pub candidate_phone : Option Text
  pub linkedin_url : Option Text
  pub resume_filename : Text
  pub resume_size : ℤ
  pub resume_reader : Option Reader
  pub custom_answers : Answers

-- `storage.Storage`, as far as the service calls it.
pub record Storage (S : Type 0) : Type 0 where
  pub upload : Text → Reader → ℤ → Text → S → Result (Unit {0}) × S
  pub delete : Text → S → Result (Unit {0}) × S
  pub get_presigned_url : Text → ℕ → S → Result Text

-- `s.storage.Upload` and `_ = s.storage.Delete`, where there is a storage.
abbrev pub upload_to :
    {S : Type 0} → Option (Storage S) → Text → ValidationResult → S → Result (Unit {0}) × S
upload_to none key resume s = (ok tt, s)
upload_to (some st) key resume s = st.upload key resume.reader resume.size resume.content_type s

abbrev pub delete_from : {S : Type 0} → Option (Storage S) → Text → S → S
delete_from none key s = s
delete_from (some st) key s = (st.delete key s).1

abbrev is_nil : Option Reader → Bool
is_nil none = true
is_nil (some r) = false

-- Step 3 of `Apply`.
unfoldable pub check_resume : ApplyInput → List ErrorDetail
check_resume input =
    if is_nil input.resume_reader
      || text_eq input.resume_filename (txt "")
      || is_zero input.resume_size
    then report (txt "resume") (txt "Resume file is required")
    else if ltb_ℤ max_resume_size input.resume_size
    then report (txt "resume") (txt "File exceeds the maximum allowed size of 10MB")
    else []

-- The error that an error of ValidateResume is answered with.
unfoldable pub resume_error : DomainError → DomainError
resume_error e =
    if is_unsupported_media_type e
    then unsupported_media_type
    else validation_error validation_message (report (txt "resume") (error_message e))

module _ (P : Platform) where
  -- Steps 2 and 3 of `Apply`.
  unfoldable pub apply_details : Job → ApplyInput → List ErrorDetail
  unfolding check_resume
  apply_details job input =
      validate_candidate_input P input.candidate_name input.candidate_email input.candidate_phone
        input.linkedin_url
      ++ (validate_custom_answers P job.custom_fields input.custom_answers ++ check_resume input)

  -- The application that `Apply` hands to the repository; the times that the database sets are 0.
  unfoldable pub new_application : Text → Job → ApplyInput → ValidationResult → Application
  new_application id job input resume = record {
    id = id;
    job_id = job.id;
    candidate_name = input.candidate_name;
    candidate_email = input.candidate_email;
    candidate_phone = input.candidate_phone;
    linkedin_url = input.linkedin_url;
    resume_s3_key = generate_resume_key P.lower_rune job.id id resume.sanitized_filename;
    resume_filename = resume.sanitized_filename;
    custom_answers = input.custom_answers;
    stage = stage_applied;
    rejected_reason = none;
    created_at = 0;
    updated_at = 0;
  }

  module _ {S : Type 0} (jobs : JobRepository S) (apps : ApplicationRepository S)
      (storage : Option (Storage S)) (webhooks : Bool) where
    -- The last part of `Apply`: what follows the repository's Create.
    abbrev pub persisted :
        Job → Text → Result Application × S → World S → Result Application × World S
    persisted job key (err e, s) w = (
      err (wrapped (txt "failed to persist application") e),
      record w { store = delete_from storage key s },
    )
    persisted job key (ok app, s) w = (
      ok app,
      emit webhooks event_application_created
          (application_created app.id job.id job.title job.slug app.candidate_name
            app.candidate_email app.stage app.custom_answers)
          (record w { store = s }),
    )

    abbrev pub uploaded :
        Job → Application → Result (Unit {0}) × S → World S → Result Application × World S
    uploaded job app (err e, s) w =
        (err (wrapped (txt "failed to upload resume") e), record w { store = s })
    uploaded job app (ok _, s) w = persisted job app.resume_s3_key (apps.create app s) w

    abbrev pub submit :
        Text → Job → ApplyInput → Result ValidationResult → World S → Result Application × World S
    submit id job input (err e) w = (err (resume_error e), w)
    submit id job input (ok resume) w =
        let app = new_application id job input resume in
        uploaded job app (upload_to storage app.resume_s3_key resume w.store) w

    -- A nil job makes the code panic, which the recovering middleware answers as an internal error.
    abbrev pub apply_to :
        DomainError
        → Text
        → ApplyInput
        → Result (Option Job)
        → World S
        → Result Application × World S
    apply_to read_error id input (err e) w = (err (if is_not_found e then not_found else e), w)
    apply_to read_error id input (ok none) w = (err internal, w)
    apply_to read_error id input (ok (some job)) w =
        let details = apply_details job input in
        if not (text_eq job.status status_published)
        then (err not_found, w)
        else if not (is_empty details)
        then (err (validation_error validation_message details), w)
        else submit id job input
            (validate_resume P.lower_rune read_error input.resume_filename input.resume_size
              input.resume_reader)
            w

    -- `Apply`, with the fresh id that it draws.
    unfoldable pub apply : DomainError → Text → ApplyInput → World S → Result Application × World S
    unfolding apply_details new_application resume_error
    apply read_error id input w =
        apply_to read_error id input (jobs.get_by_id_or_slug input.job_id_or_slug w.store) w
