-- ===== src/Api/Admin.antt =====
-- internal/api/v1/admin.go. What JSON decoding of a body gives, `none` where it fails, and the
-- parameters of the route are arguments.
use job_board.Prelude.{Bool, true, not, List, ◌++◌, Option, none, some, if◌then◌else◌, is_empty}
use job_board.Text.{Text, txt, text_eq, trim_space}
use job_board.Domain.Types.{
  Job, Application, ApplicationNote, ApplicationStage, Time, Result, ok, err,
}
use job_board.Domain.Values.{Platform}
use job_board.Service.World.{World, JobRepository, ApplicationRepository, NoteRepository}
use job_board.Service.Jobs.{
  CreateJobInput, UpdateJobInput, create_job, update_job, list_jobs, get_job, delete_job,
}
use job_board.Service.Applications.{Storage}
use job_board.Service.Pipeline.{
  ResumeDownloadResult, list_applications, get_application, get_resume_download_url, update_stage,
  create_note, list_notes,
}
use job_board.Store.Database.{to_ℕ}
use job_board.Api.Responses.{
  Response, answer, no_content, invalid, missing, bad_body, Cases, respond_error, respond,
  Paginated, respond_page,
}
use job_board.Api.Queries.{parse_admin_job_list_query, parse_application_list_query}
use job_board.Api.Public.{only_internal, or_missing}

abbrev no_job : Text
no_job = txt "The requested job was not found."

abbrev no_application : Text
no_application = txt "The requested application was not found."

abbrev slug_taken : Option Text
slug_taken = some (txt "A job with this slug already exists.")

-- A handler of a route with an id, which is trimmed and must not be blank.
abbrev pub with_id {ℓ κ} :
    {A : Type ℓ} {R : Type κ} → Text → Text → (Response A → R) → (Text → R) → R
with_id id message refuse run =
    if text_eq (trim_space id) (txt "") then refuse (missing message) else run (trim_space id)

abbrev pub created {ℓ} : {A : Type ℓ} → Text → (A → Text) → A → Response A
created path id_of a = answer 201 (some (path ++ id_of a)) a

abbrev pub deleted : Cases → Result (Unit {0}) → Response (Unit {0})
deleted cases (ok _) = no_content
deleted cases (err e) = respond_error cases e

abbrev done_job :
    {S : Type 0} → Cases → (Job → Response Job) → Result Job × World S → Response Job × World S
done_job cases success (result, w) = (respond cases success result, w)

module _ (P : Platform) {S : Type 0} (jobs : JobRepository S) (webhooks : Bool) where
  abbrev create_decoded : Time → Text → Option CreateJobInput → World S → Response Job × World S
  create_decoded now id none w = (bad_body, w)
  create_decoded now id (some input) w =
      done_job
        (record (only_internal (txt "Failed to create job.")) {
          conflict_message = slug_taken;
          validates = true;
        })
        (created (txt "/v1/admin/jobs/") (λ job. job.id))
        (create_job P jobs webhooks now id input w)

  -- `CreateJob`, at the time and with the fresh id of the service.
  unfoldable pub create_job_handler :
      Time → Text → Option CreateJobInput → World S → Response Job × World S
  unfolding respond create_job
  create_job_handler now id body w = create_decoded now id body w

  abbrev update_decoded : Time → Text → Option UpdateJobInput → World S → Response Job × World S
  update_decoded now id none w = (bad_body, w)
  update_decoded now id (some input) w =
      done_job
        (record (or_missing no_job (txt "Failed to update job.")) {
          conflict_message = slug_taken;
          validates = true;
        })
        (answer 200 none) (update_job P jobs webhooks now id input w)

  -- `UpdateJob`
  unfoldable pub update_job_handler :
      Time → Text → Option UpdateJobInput → World S → Response Job × World S
  unfolding respond update_job
  update_job_handler now id body w =
      with_id id no_job (λ r. (r, w)) (λ trimmed. update_decoded now trimmed body w)

module _ {S : Type 0} (jobs : JobRepository S) where
  -- `ListJobs`
  unfoldable pub list_all_jobs_handler : (Text → Text) → S → Response (Paginated Job)
  unfolding respond_page parse_admin_job_list_query list_jobs
  list_all_jobs_handler query s =
      let parsed = parse_admin_job_list_query query in
      let filter = parsed.0 in
      if not (is_empty parsed.1)
      then invalid parsed.1
      else respond_page (only_internal (txt "Failed to retrieve job listings.")) (to_ℕ filter.page)
          (to_ℕ filter.limit) (list_jobs jobs filter s)

  -- `GetJob`
  unfoldable pub get_any_job_handler : Text → S → Response Job
  unfolding respond get_job
  get_any_job_handler id s =
      with_id id no_job (λ r. r)
        (λ trimmed.
          respond (or_missing no_job (txt "Failed to retrieve job details.")) (answer 200 none)
            (get_job jobs trimmed s))

  -- `DeleteJob`
  unfoldable pub delete_job_handler : Text → S → Response (Unit {0}) × S
  unfolding respond_error delete_job
  delete_job_handler id s =
      with_id id no_job (λ r. (r, s))
        (λ trimmed.
          let done = delete_job jobs trimmed s in
          (deleted (or_missing no_job (txt "Failed to delete job.")) done.0, done.1))

  module _ (apps : ApplicationRepository S) where
    -- `ListJobApplications`
    unfoldable pub list_applications_handler :
        Text → (Text → Text) → S → Response (Paginated Application)
    unfolding respond_page parse_application_list_query list_applications
    list_applications_handler id query s =
        let parsed = parse_application_list_query query in
        with_id id no_job (λ r. r)
          (λ trimmed.
            let filter = record (parsed.0) { job_id = trimmed } in
            if not (is_empty parsed.1)
            then invalid parsed.1
            else respond_page (or_missing no_job (txt "Failed to retrieve applications."))
                (to_ℕ filter.page) (to_ℕ filter.limit) (list_applications apps jobs filter s))

module _ {S : Type 0} (apps : ApplicationRepository S) where
  -- `GetApplication`
  unfoldable pub get_application_handler : Text → S → Response Application
  unfolding respond get_application
  get_application_handler id s =
      with_id id no_application (λ r. r)
        (λ trimmed.
          respond (or_missing no_application (txt "Failed to retrieve application details."))
            (answer 200 none) (get_application apps trimmed s))

  -- `GetResumeURL`
  unfoldable pub get_resume_url_handler :
      Option (Storage S) → Text → S → Response ResumeDownloadResult
  unfolding respond get_resume_download_url
  get_resume_url_handler storage id s =
      with_id id no_application (λ r. r)
        (λ trimmed.
          respond (or_missing no_application (txt "Failed to generate resume download link."))
            (answer 200 none) (get_resume_download_url apps storage trimmed s))

  abbrev stage_decoded :
      Option (NoteRepository S)
      → Bool
      → Time
      → Text
      → Option (ApplicationStage × Option Text)
      → World S
      → Response Application × World S
  stage_decoded notes webhooks now id none w = (bad_body, w)
  stage_decoded notes webhooks now id (some (stage, reason)) w =
      let done = update_stage apps notes webhooks now id stage reason w in
      (
        respond
            (record (or_missing no_application (txt "Failed to update application stage.")) {
              validates = true;
            })
            (answer 200 none) done.0,
        done.1,
      )

  -- `UpdateStage`
  unfoldable pub update_stage_handler :
      Option (NoteRepository S)
      → Bool
      → Time
      → Text
      → Option (ApplicationStage × Option Text)
      → World S
      → Response Application × World S
  unfolding respond update_stage
  update_stage_handler notes webhooks now id body w =
      with_id id no_application (λ r. (r, w))
        (λ trimmed. stage_decoded notes webhooks now trimmed body w)

  abbrev note_decoded :
      NoteRepository S → Text → Text → Option (Text × Text) → S → Response ApplicationNote × S
  note_decoded notes fresh id none s = (bad_body, s)
  note_decoded notes fresh id (some (author_name, note_text)) s =
      let done = create_note apps notes fresh id author_name note_text s in
      (
        respond
            (record (or_missing no_application (txt "Failed to create application note.")) {
              validates = true;
            })
            (created (txt "/v1/admin/applications/" ++ (id ++ txt "/notes/")) (λ note. note.id))
            done.0,
        done.1,
      )

  -- `CreateNote`, with the fresh id of the service.
  unfoldable pub create_note_handler :
      NoteRepository S → Text → Text → Option (Text × Text) → S → Response ApplicationNote × S
  unfolding respond create_note
  create_note_handler notes fresh id body s =
      with_id id no_application (λ r. (r, s)) (λ trimmed. note_decoded notes fresh trimmed body s)

  -- `ListNotes`
  unfoldable pub list_notes_handler : NoteRepository S → Text → S → Response (List ApplicationNote)
  unfolding respond list_notes
  list_notes_handler notes id s =
      with_id id no_application (λ r. r)
        (λ trimmed.
          respond (or_missing no_application (txt "Failed to retrieve application notes."))
            (answer 200 none) (list_notes apps notes trimmed s))
