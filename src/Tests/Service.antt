-- ===== src/Tests/Service.antt =====
-- The job service over a repository that is a list of jobs.
use job_board.Prelude.{
  ℕ, ◌≡◌, refl, ◌≢◌, ◌↔◌, ◌≤◌, true, List, [], ◌∷◌, Option, none, some, if◌then◌else◌, ◌||◌,
}
use job_board.Prelude.Int.{pos, negsuc}
use job_board.Text.{Text, txt, text_eq}
use job_board.Domain.Types.{
  Job, JobListFilter, ErrorDetail, ok, err, validation_error, full_time, status_draft,
  status_published, status_archived,
}
use job_board.Domain.JobInput.{JobIsValid}
use job_board.Service.World.{World, JobRepository}
use job_board.Service.Jobs.{
  CreateJobInput, UpdateJobInput, create_job, create_attributes, updated_job, update_job,
  get_published_job, list_published_jobs, validation_message,
}
use job_board.Service.Jobs.Created.{IsCreated, announced, create_job-IsCreated, create_job-rejects}
use job_board.Service.Jobs.Updated.{
  HasPublishTime, IsUpdated, updated_job-published_at, updated_job-HasPublishTime,
  update_job-IsUpdated,
}
use job_board.Service.Jobs.Reads.{get_published_job_iff, list_published_jobs_bounds}
use job_board.Tests.Platforms.{ascii_platform}

find : Text → List Job → Option Job
find key [] = none
find key (job ∷ jobs) =
    let rest = find key jobs in
    if text_eq job.id key || text_eq job.slug key then some job else rest

abbrev list_repo : JobRepository (List Job)
list_repo = record {
  create = λ job jobs. (ok job, job ∷ jobs);
  get_by_id = λ id jobs. ok (find id jobs);
  get_by_id_or_slug = λ key jobs. ok (find key jobs);
  list = λ filter jobs. ok (jobs, 1);
  list_departments = λ jobs. ok [];
  update = λ job jobs. (ok job, job ∷ []);
  delete = λ id jobs. (ok tt, []);
}

abbrev empty : World (List Job)
empty = record { store = []; events = [] }

abbrev posting : CreateJobInput
posting = record {
  slug = txt "";
  title = txt "Go Engineer";
  department = txt "Engineering";
  location = txt "Berlin";
  employment_type = txt "";
  experience_level = none;
  salary_min = none;
  salary_max = none;
  salary_currency = txt "";
  description_markdown = txt "Build";
  status = status_published;
  custom_fields = [];
}

abbrev job : Job
job = record {
  id = txt "id-1";
  slug = txt "go-engineer";
  title = txt "Go Engineer";
  department = txt "Engineering";
  location = txt "Berlin";
  employment_type = full_time;
  experience_level = none;
  salary_min = none;
  salary_max = none;
  salary_currency = txt "USD";
  description_markdown = txt "Build";
  status = status_published;
  custom_fields = [];
  created_at = 0;
  updated_at = 0;
  published_at = some 7;
}

abbrev after_create : World (List Job)
after_create = record { store = job ∷ []; events = announced true job [] }

created :
    create_job ascii_platform list_repo true 7 (txt "id-1") posting empty ≡ (ok job, after_create)
unfolding create_job txt job_board.Domain.JobInput.validate_job_input
    job_board.Domain.Report.required_within text_eq job_board.Text.trim_space job_board.Text.len
    job_board.Domain.Report.report_if job_board.Domain.Formats.is_valid_employment_type
    job_board.Domain.Formats.is_valid_job_status job_board.Domain.Slug.generate_slug
    job_board.Domain.Slug.finish_slug job_board.Domain.Slug.slug_loop job_board.Text.to_lower
    job_board.Domain.Slug.is_slug_char job_board.Domain.Slug.is_valid_slug
    job_board.Domain.Slug.matches_slug job_board.Domain.CustomFields.validate_custom_fields
created = refl

create_job-IsCreated_example :
    IsCreated ascii_platform list_repo true 7 (txt "id-1") posting empty job after_create
create_job-IsCreated_example =
    create_job-IsCreated ascii_platform list_repo true 7 (txt "id-1") posting empty after_create job
      created

abbrev untitled : CreateJobInput
untitled = record posting { title = txt " " }

untitled_is_bad : ¬ JobIsValid ascii_platform (create_attributes ascii_platform untitled)
unfolding txt job_board.Text.trim_space create_attributes
untitled_is_bad v = v.title.0 refl

create_job-rejects_example :
    (details : List ErrorDetail) × (details ≢ [])
    × (create_job ascii_platform list_repo true 7 (txt "id-1") untitled empty
        ≡ (err (validation_error validation_message details), empty))
create_job-rejects_example =
    create_job-rejects ascii_platform list_repo true 7 (txt "id-1") untitled empty untitled_is_bad

abbrev archive : UpdateJobInput
archive = record {
  slug = none;
  title = none;
  department = none;
  location = none;
  employment_type = none;
  experience_level = none;
  salary_min = none;
  salary_max = none;
  salary_currency = none;
  description_markdown = none;
  status = some status_archived;
  custom_fields = none;
}

abbrev archived : Job
archived = record job { status = status_archived }

updated_job-published_at_example : (updated_job ascii_platform 9 job archive).published_at ≡ some 7
updated_job-published_at_example = updated_job-published_at ascii_platform 9 job archive 7 refl

job-HasPublishTime : HasPublishTime job
job-HasPublishTime _ p = cc p

updated_job-HasPublishTime_example : HasPublishTime (updated_job ascii_platform 9 job archive)
updated_job-HasPublishTime_example =
    updated_job-HasPublishTime ascii_platform 9 job archive job-HasPublishTime

abbrev after_update : World (List Job)
after_update = (update_job ascii_platform list_repo true 9 (txt "id-1") archive after_create).1

updated :
    update_job ascii_platform list_repo true 9 (txt "id-1") archive after_create
    ≡ (ok archived, after_update)
unfolding update_job txt find text_eq job_board.Domain.JobInput.validate_job_input
    job_board.Domain.Report.required_within job_board.Text.trim_space job_board.Text.len
    job_board.Domain.Report.report_if job_board.Domain.Formats.is_valid_employment_type
    job_board.Domain.Formats.is_valid_job_status job_board.Domain.Slug.is_valid_slug
    job_board.Domain.Slug.matches_slug job_board.Domain.CustomFields.validate_custom_fields
updated = refl

update_job-IsUpdated_example :
    IsUpdated ascii_platform list_repo true 9
      (txt "id-1")
      archive
      after_create
      archived
      after_update
update_job-IsUpdated_example =
    update_job-IsUpdated ascii_platform list_repo true 9 (txt "id-1") archive after_create
      after_update archived updated

get_published_job_iff_example :
    (get_published_job list_repo (txt "go-engineer") (job ∷ []) ≡ ok job) ↔ (
      (list_repo.get_by_id_or_slug (txt "go-engineer") (job ∷ []) ≡ ok (some job))
      × (job.status ≡ status_published))
get_published_job_iff_example = get_published_job_iff list_repo (txt "go-engineer") (job ∷ []) job

abbrev everything : JobListFilter
everything = record {
  department = txt "";
  location = txt "";
  employment_type = txt "";
  status = status_draft;
  page = negsuc 3;
  limit = pos 5000;
}

list_published_jobs_bounds_example :
    (page limit : ℕ) × (1 ≤ page)
    × (1 ≤ limit)
    × (limit ≤ 100)
    × (list_published_jobs list_repo everything (job ∷ [])
        ≡ list_repo.list
            (record everything { status = status_published; page = pos page; limit = pos limit })
            (job ∷ []))
list_published_jobs_bounds_example = list_published_jobs_bounds list_repo everything (job ∷ [])
