-- ===== src/Service/Pipeline.antt =====
-- internal/service/application_service.go: what recruiters do with applications.
pub mod Stages
pub mod Notes
use job_board.Prelude.{
  ℕ, Bool, true, false, not, ◌&&◌, ◌||◌, List, [], ◌∷◌, Option, none, some, if◌then◌else◌, is_empty,
  length,
}
use job_board.Text.{Text, txt, text_eq, trim_space}
use job_board.Domain.Types.{
  DomainError, not_found, validation_error, other, wrapped, Result, ok, err, Time, Job, Application,
  ApplicationStage, ApplicationListFilter, ApplicationNote, stage_rejected,
  event_application_stage_updated, event_application_rejected,
}
use job_board.Domain.Requests.{validate_stage_update, validate_note_input}
use job_board.Service.World.{
  World, emit, stage_updated, rejected, JobRepository, ApplicationRepository, NoteRepository,
}
use job_board.Service.Paging.{page_of, limit_of}
use job_board.Service.Jobs.{validation_message}
use job_board.Service.Applications.{Storage}

pub record ResumeDownloadResult : Type 0 where
  pub url : Text
  pub filename : Text
  pub expires_in_seconds : ℕ

module _ {S : Type 0} (apps : ApplicationRepository S) where
  abbrev listed : JobRepository S → ApplicationListFilter → S → Result (List Application × ℕ)
  listed jobs filter s =
      apps.list (record filter { page = page_of filter.page; limit = limit_of filter.limit }) s

  -- `ListApplications`; a nil slice and an empty one are both [].
  unfoldable pub list_applications :
      JobRepository S → ApplicationListFilter → S → Result (List Application × ℕ)
  list_applications jobs filter s =
      if not (text_eq filter.job_id (txt ""))
      then elim (jobs.get_by_id_or_slug filter.job_id s) [
        | err e ↦ err e
        | ok job ↦ listed jobs filter s
      ]
      else listed jobs filter s

  abbrev or_not_found : Result (Option Application) → Result Application
  or_not_found (err e) = err e
  or_not_found (ok none) = err not_found
  or_not_found (ok (some app)) = ok app

  -- `GetApplication`
  unfoldable pub get_application : Text → S → Result Application
  get_application id s = or_not_found (apps.get_by_id id s)

  abbrev download : Application → Result Text → Result ResumeDownloadResult
  download app (err e) = err (wrapped (txt "failed to generate presigned url") e)
  download app (ok url) =
      ok (record { url = url; filename = app.resume_filename; expires_in_seconds = 900 })

  abbrev download_from : Option (Storage S) → S → Result Application → Result ResumeDownloadResult
  download_from storage s (err e) = err e
  download_from none s (ok app) = err (other (txt "storage client not configured"))
  download_from (some storage) s (ok app) =
      download app (storage.get_presigned_url app.resume_s3_key 900 s)

  -- `GetResumeDownloadURL`
  unfoldable pub get_resume_download_url :
      Option (Storage S) → Text → S → Result ResumeDownloadResult
  get_resume_download_url storage id s =
      download_from storage s (or_not_found (apps.get_by_id id s))

  module _ (notes : Option (NoteRepository S)) (webhooks : Bool) where
    abbrev listed_notes : Result (List ApplicationNote) → ℕ
    listed_notes (err e) = 0
    listed_notes (ok xs) = length xs

    -- `notesCount`; an error counts as no notes.
    abbrev pub notes_count : Text → S → ℕ
    notes_count id s = elim notes [
      | none ↦ 0
      | some repo ↦ listed_notes (repo.list_by_application_id id s)
    ]

    -- `oldRejectedReason == nil || *oldRejectedReason != *input.RejectedReason`, where the new
    -- reason is not nil.
    abbrev pub is_new_reason : Option Text → Option Text → Bool
    is_new_reason old none = false
    is_new_reason none (some new) = true
    is_new_reason (some old) (some new) = not (text_eq old new)

    -- The events of `UpdateStage`, for the application `app` as it was.
    unfoldable pub emit_stage :
        Text → Application → ApplicationStage → Option Text → World S → World S
    emit_stage id app stage reason w =
        let moved =
          emit webhooks event_application_stage_updated
            (stage_updated app.id app.job_id app.stage stage (notes_count id w.store)) w in
        if not (text_eq app.stage stage)
        then (if text_eq stage stage_rejected
            then emit webhooks event_application_rejected (rejected app.id reason) moved
            else moved)
        else if text_eq stage stage_rejected && is_new_reason app.rejected_reason reason
        then emit webhooks event_application_rejected (rejected app.id reason) w
        else w

    abbrev pub moved_to :
        Time
        → Text
        → ApplicationStage
        → Option Text
        → Application
        → Result (Unit {0}) × S
        → World S
        → Result Application × World S
    moved_to now id stage reason app (err e, s) w = (err e, record w { store = s })
    moved_to now id stage reason app (ok _, s) w = (
      ok (record app { stage = stage; rejected_reason = reason; updated_at = now }),
      emit_stage id app stage reason (record w { store = s }),
    )

    abbrev pub update_found :
        Time
        → Text
        → ApplicationStage
        → Option Text
        → Result (Option Application)
        → World S
        → Result Application × World S
    update_found now id stage reason (err e) w = (err e, w)
    update_found now id stage reason (ok none) w = (err not_found, w)
    update_found now id stage reason (ok (some app)) w =
        let details = validate_stage_update stage reason in
        if not (is_empty details)
        then (err (validation_error validation_message details), w)
        else moved_to now id stage reason app (apps.update_stage id stage reason w.store) w

    -- `UpdateStage`, at the time that it reads.
    unfoldable pub update_stage :
        Time → Text → ApplicationStage → Option Text → World S → Result Application × World S
    unfolding emit_stage
    update_stage now id stage reason w =
        update_found now id stage reason (apps.get_by_id id w.store) w

  abbrev pub noted :
      NoteRepository S
      → Text
      → Text
      → Text
      → Text
      → Result (Option Application)
      → S
      → Result ApplicationNote × S
  noted notes id app_id author_name note_text (err e) s = (err e, s)
  noted notes id app_id author_name note_text (ok app) s =
      let details = validate_note_input author_name note_text in
      if not (is_empty details)
      then (err (validation_error validation_message details), s)
      else notes.create
          (record {
            id = id;
            application_id = app_id;
            author_name = trim_space author_name;
            note_text = trim_space note_text;
            created_at = 0;
          })
          s

  -- `CreateNote`, with the fresh id that it draws; the time that the database sets is 0.
  unfoldable pub create_note :
      NoteRepository S → Text → Text → Text → Text → S → Result ApplicationNote × S
  create_note notes id app_id author_name note_text s =
      noted notes id app_id author_name note_text (apps.get_by_id app_id s) s

  -- `ListNotes`
  unfoldable pub list_notes : NoteRepository S → Text → S → Result (List ApplicationNote)
  list_notes notes app_id s = elim (apps.get_by_id app_id s) [
    | err e ↦ err e
    | ok app ↦ notes.list_by_application_id app_id s
  ]
