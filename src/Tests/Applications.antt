-- ===== src/Tests/Applications.antt =====
-- Applications over a state that is the list of the stored objects.
use job_board.Prelude.{
  ◌≡◌, refl, ap, sym, true, false, List, [], ◌∷◌, Option, none, some, if◌then◌else◌,
}
use job_board.Prelude.Int.{pos}
use job_board.Text.{Text, txt, text_eq}
use job_board.Domain.Types.{
  Job, Application, ApplicationNote, conflict, internal, ok, err, wrapped, full_time,
  status_published, stage_applied, stage_rejected,
}
use job_board.Storage.Resume.{Reader, ValidationResult}
use job_board.Service.World.{World, JobRepository, ApplicationRepository, NoteRepository}
use job_board.Service.Applications.{ApplyInput, Storage, apply}
use job_board.Service.Applications.Apply.{IsSubmitted, apply-IsSubmitted}
use job_board.Service.Applications.Apply.Cleanup.{IsLawful, apply-objects}
use job_board.Service.Pipeline.{update_stage, create_note}
use job_board.Service.Pipeline.Notes.{IsNoted, create_note-IsNoted}
use job_board.Service.Pipeline.Stages.{IsMoved, update_stage-IsMoved}
use job_board.Tests.Platforms.{ascii_platform}

abbrev pub Objects : Type 0
Objects = List (Text × Option Reader)

abbrev objects : Objects → Text → Option Reader
objects [] key = none
objects ((k, r) ∷ s) key = if text_eq k key then r else objects s key

abbrev pub map_storage : Storage Objects
map_storage = record {
  upload = λ key r size type s. (ok tt, (key, some r) ∷ s);
  delete = λ key s. (ok tt, (key, none) ∷ s);
  get_presigned_url = λ key seconds s. ok key;
}

abbrev job : Job
job = record {
  id = txt "job-1";
  slug = txt "go";
  title = txt "Go";
  department = txt "Eng";
  location = txt "Berlin";
  employment_type = full_time;
  experience_level = none;
  salary_min = none;
  salary_max = none;
  salary_currency = txt "EUR";
  description_markdown = txt "x";
  status = status_published;
  custom_fields = [];
  created_at = 0;
  updated_at = 0;
  published_at = some 1;
}

abbrev pub one_job : JobRepository Objects
one_job = record {
  create = λ j s. (ok j, s);
  get_by_id = λ id s. ok (some job);
  get_by_id_or_slug = λ key s. ok (some job);
  list = λ filter s. ok (job ∷ [], 1);
  list_departments = λ s. ok [];
  update = λ j s. (ok j, s);
  delete = λ id s. (ok tt, s);
}

abbrev pub app : Application
app = record {
  id = txt "app-1";
  job_id = txt "job-1";
  candidate_name = txt "Ada";
  candidate_email = txt "ada@example.com";
  candidate_phone = none;
  linkedin_url = none;
  resume_s3_key = txt "resumes/job-1/app-1/cv.pdf";
  resume_filename = txt "cv.pdf";
  custom_answers = [];
  stage = stage_applied;
  rejected_reason = none;
  created_at = 0;
  updated_at = 0;
}

abbrev pub accepting : ApplicationRepository Objects
accepting = record {
  create = λ a s. (ok a, s);
  get_by_id = λ id s. ok (some app);
  list = λ filter s. ok (app ∷ [], 1);
  update_stage = λ id stage reason s. (ok tt, s);
}

abbrev refusing : ApplicationRepository Objects
refusing = record accepting { create = λ a s. (err conflict, s) }

abbrev pub file : Reader
file = record { content = b'%' ∷ b'P' ∷ b'D' ∷ b'F' ∷ b'-' ∷ []; breaks = false }

abbrev input : ApplyInput
input = record {
  job_id_or_slug = txt "go";
  candidate_name = txt "Ada";
  candidate_email = txt "ada@example.com";
  candidate_phone = none;
  linkedin_url = none;
  resume_filename = txt "cv.pdf";
  resume_size = pos 5;
  resume_reader = some file;
  custom_answers = [];
}

abbrev pub empty : World Objects
empty = record { store = []; events = [] }

abbrev pub after : World Objects
after =
    (apply ascii_platform one_job accepting (some map_storage) true internal (txt "app-1") input
      empty).1

submitted :
    apply ascii_platform one_job accepting
      (some map_storage)
      true
      internal
      (txt "app-1")
      input
      empty
    ≡ (ok app, after)
unfolding apply txt text_eq job_board.Domain.Candidate.validate_candidate_input
    job_board.Domain.Report.required_within job_board.Text.trim_space job_board.Text.len
    job_board.Domain.Formats.is_valid_email job_board.Domain.Formats.matches_email
    job_board.Text.is_alnum job_board.Domain.Answers.validate_custom_answers
    job_board.Storage.Resume.validate_resume job_board.Text.to_lower job_board.Text.trim_prefix
    job_board.Storage.Names.extension job_board.Storage.Names.sanitize_filename
    job_board.Storage.Names.generate_resume_key
submitted = refl

apply-IsSubmitted_example :
    IsSubmitted ascii_platform one_job accepting
      (some map_storage)
      true
      (txt "app-1")
      input
      empty
      app
      after
apply-IsSubmitted_example =
    apply-IsSubmitted ascii_platform one_job accepting (some map_storage) true internal
      (txt "app-1") input empty after app submitted

map_storage-IsLawful : IsLawful objects map_storage refusing
map_storage-IsLawful = record {
  uploads = λ key r size type s t e other. ap (λ p. objects p.1 other) (sym e);
  rejects = λ key r size type s t x e other. cc;
  deletes = λ key s other. refl;
  apart = λ a s other. refl;
}

abbrev failed : World Objects
failed =
    (apply ascii_platform one_job refusing (some map_storage) true internal (txt "app-1") input
      empty).1

persist_error :
    apply ascii_platform one_job refusing (some map_storage) true internal (txt "app-1") input empty
    ≡ (err (wrapped (txt "failed to persist application") conflict), failed)
unfolding apply txt text_eq job_board.Domain.Candidate.validate_candidate_input
    job_board.Domain.Report.required_within job_board.Text.trim_space job_board.Text.len
    job_board.Domain.Formats.is_valid_email job_board.Domain.Formats.matches_email
    job_board.Text.is_alnum job_board.Domain.Answers.validate_custom_answers
    job_board.Storage.Resume.validate_resume job_board.Text.to_lower job_board.Text.trim_prefix
    job_board.Storage.Names.extension job_board.Storage.Names.sanitize_filename
persist_error = refl

apply-objects_example : objects failed.store app.resume_s3_key ≡ none
apply-objects_example =
    apply-objects ascii_platform one_job refusing map_storage true objects map_storage-IsLawful
      internal (txt "app-1") input empty failed
      (wrapped (txt "failed to persist application") conflict) app.resume_s3_key (λ j r. refl)
      persist_error

abbrev moved : Application
moved = record app { stage = stage_rejected; rejected_reason = some (txt "late"); updated_at = 9 }

abbrev after_move : World Objects
after_move =
    (update_stage accepting none true 9 (txt "app-1") stage_rejected (some (txt "late")) empty).1

rejects_app :
    update_stage accepting none true 9 (txt "app-1") stage_rejected (some (txt "late")) empty
    ≡ (ok moved, after_move)
unfolding update_stage txt job_board.Domain.Requests.validate_stage_update
    job_board.Domain.Report.report_if job_board.Domain.Formats.is_valid_stage text_eq
    job_board.Text.len job_board.Text.trim_space
rejects_app = refl

update_stage-IsMoved_example :
    IsMoved accepting none true 9
      (txt "app-1")
      stage_rejected
      (some (txt "late"))
      empty
      moved
      after_move
update_stage-IsMoved_example =
    update_stage-IsMoved accepting none true 9 (txt "app-1") stage_rejected (some (txt "late"))
      empty after_move moved rejects_app

abbrev note : ApplicationNote
note = record {
  id = txt "note-1";
  application_id = txt "app-1";
  author_name = txt "Bo";
  note_text = txt "Strong";
  created_at = 0;
}

abbrev keeping : NoteRepository Objects
keeping = record { create = λ n s. (ok n, s); list_by_application_id = λ id s. ok (note ∷ []) }

noted_once :
    create_note accepting keeping (txt "note-1") (txt "app-1") (txt " Bo") (txt "Strong ") []
    ≡ (ok note, [])
unfolding create_note txt job_board.Domain.Requests.validate_note_input
    job_board.Domain.Report.required_within text_eq job_board.Text.trim_space job_board.Text.len
    job_board.Domain.Report.report_if
noted_once = refl

create_note-IsNoted_example :
    IsNoted accepting keeping (txt "note-1") (txt "app-1") (txt " Bo") (txt "Strong ") [] note []
create_note-IsNoted_example =
    create_note-IsNoted accepting keeping (txt "note-1") (txt "app-1") (txt " Bo") (txt "Strong ")
      [] [] note noted_once
