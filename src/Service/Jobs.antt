-- ===== src/Service/Jobs.antt =====
-- internal/service/job_service.go
pub mod Created
pub mod Updated
pub mod Reads
use job_board.Prelude.{
  ℕ, Bool, true, false, not, ◌&&◌, List, [], ◌∷◌, Option, none, some, if◌then◌else◌, is_empty,
}
use job_board.Prelude.Int.{ℤ}
use job_board.Text.{Text, txt, text_eq, trim_space}
use job_board.Domain.Types.{
  ErrorDetail, DomainError, not_found, validation_error, Result, ok, err, Float64, Time, JobStatus,
  status_draft, status_published, status_archived, EmploymentType, full_time, CustomField, Job,
  JobListFilter, event_job_published, event_job_archived,
}
use job_board.Domain.Values.{Platform}
use job_board.Domain.Slug.{generate_slug}
use job_board.Domain.JobInput.{JobInput, validate_job_input}
use job_board.Service.World.{World, emit, of_job, JobRepository}
use job_board.Service.Paging.{page_of, limit_of}

pub record CreateJobInput : Type 0 where
  pub slug : Text
  pub title : Text
  pub department : Text
  pub location : Text
  pub employment_type : EmploymentType
  pub experience_level : Option Text
  pub salary_min : Option Float64
  pub salary_max : Option Float64
  pub salary_currency : Text
  pub description_markdown : Text
  pub status : JobStatus
  pub custom_fields : List CustomField

pub record UpdateJobInput : Type 0 where
  pub slug : Option Text
  pub title : Option Text
  pub department : Option Text
  pub location : Option Text
  pub employment_type : Option EmploymentType
  pub experience_level : Option Text
  pub salary_min : Option Float64
  pub salary_max : Option Float64
  pub salary_currency : Option Text
  pub description_markdown : Option Text
  pub status : Option JobStatus
  pub custom_fields : Option (List CustomField)

abbrev pub validation_message : Text
validation_message = txt "The provided input failed validation checks."

-- `if t == "" { t = default }`
abbrev pub or_default : Text → Text → Text
or_default t default = if text_eq t (txt "") then default else t

-- A pointer that replaces a value when it is not nil.
abbrev pub replaced {ℓ} : {A : Type ℓ} → A → Option A → A
replaced old none = old
replaced old (some new) = new

abbrev pub replaced_trimmed : Text → Option Text → Text
replaced_trimmed old none = old
replaced_trimmed old (some new) = trim_space new

abbrev pub kept_or {ℓ} : {A : Type ℓ} → Option A → Option A → Option A
kept_or old none = old
kept_or old (some new) = some new

module _ (P : Platform) where
  -- What `CreateJob` validates: its input with the defaults.
  unfoldable pub create_attributes : CreateJobInput → JobInput
  create_attributes input = record {
    title = input.title;
    department = input.department;
    location = input.location;
    description_markdown = input.description_markdown;
    emp_type = or_default input.employment_type full_time;
    status = or_default input.status status_draft;
    experience_level = input.experience_level;
    salary_min = input.salary_min;
    salary_max = input.salary_max;
    salary_currency = or_default (trim_space input.salary_currency) (txt "USD");
    slug = or_default (trim_space input.slug) (generate_slug P.lower_rune input.title);
    custom_fields = input.custom_fields;
  }

  -- The job that `CreateJob` hands to the repository; the times that the database sets are 0.
  unfoldable pub new_job : Time → Text → CreateJobInput → Job
  unfolding create_attributes
  new_job now id input =
      let a = create_attributes input in
      record {
        id = id;
        slug = a.slug;
        title = trim_space input.title;
        department = trim_space input.department;
        location = trim_space input.location;
        employment_type = a.emp_type;
        experience_level = input.experience_level;
        salary_min = input.salary_min;
        salary_max = input.salary_max;
        salary_currency = a.salary_currency;
        description_markdown = trim_space input.description_markdown;
        status = a.status;
        custom_fields = input.custom_fields;
        created_at = 0;
        updated_at = 0;
        published_at = if text_eq a.status status_published then some now else none;
      }

  -- What `UpdateJob` validates: the stored job with the input's replacements.
  unfoldable pub update_attributes : Job → UpdateJobInput → JobInput
  update_attributes job input = record {
    title = replaced_trimmed job.title input.title;
    department = replaced_trimmed job.department input.department;
    location = replaced_trimmed job.location input.location;
    description_markdown = replaced_trimmed job.description_markdown input.description_markdown;
    emp_type = replaced job.employment_type input.employment_type;
    status = replaced job.status input.status;
    experience_level = kept_or job.experience_level input.experience_level;
    salary_min = kept_or job.salary_min input.salary_min;
    salary_max = kept_or job.salary_max input.salary_max;
    salary_currency = replaced_trimmed job.salary_currency input.salary_currency;
    slug = replaced_trimmed job.slug input.slug;
    custom_fields = replaced job.custom_fields input.custom_fields;
  }

  abbrev published_time : Time → Job → Option JobStatus → Option Time
  published_time now job none = job.published_at
  published_time now job (some status) = elim job.published_at [
    | none ↦ if text_eq status status_published then some now else none
    | some t ↦ some t
  ]

  -- The job after the assignments of `UpdateJob`.
  unfoldable pub updated_job : Time → Job → UpdateJobInput → Job
  unfolding update_attributes
  updated_job now job input =
      let a = update_attributes job input in
      record job {
        title = a.title;
        department = a.department;
        location = a.location;
        description_markdown = a.description_markdown;
        employment_type = a.emp_type;
        experience_level = a.experience_level;
        salary_min = a.salary_min;
        salary_max = a.salary_max;
        salary_currency = a.salary_currency;
        slug = a.slug;
        custom_fields = a.custom_fields;
        status = a.status;
        published_at = published_time now job input.status;
      }

  module _ {S : Type 0} (repo : JobRepository S) (webhooks : Bool) where
    abbrev create_done : Result Job × S → World S → Result Job × World S
    create_done (err e, s) w = (err e, record w { store = s })
    create_done (ok job, s) w = (
      ok job,
      emit (webhooks && text_eq job.status status_published) event_job_published (of_job job)
          (record w { store = s }),
    )

    -- `CreateJob`, at the time and with the fresh id that it draws.
    unfoldable pub create_job : Time → Text → CreateJobInput → World S → Result Job × World S
    unfolding new_job
    create_job now id input w =
        let details = validate_job_input P (create_attributes input) in
        if not (is_empty details)
        then (err (validation_error validation_message details), w)
        else create_done (repo.create (new_job now id input) w.store) w

    abbrev update_done : JobStatus → Result Job × S → World S → Result Job × World S
    update_done old_status (err e, s) w = (err e, record w { store = s })
    update_done old_status (ok job, s) w =
        let stored = record w { store = s } in
        (
          ok job,
          (if not (text_eq old_status status_published) && text_eq job.status status_published
              then emit webhooks event_job_published (of_job job) stored
              else if not (text_eq old_status status_archived) && text_eq job.status status_archived
              then emit webhooks event_job_archived (of_job job) stored
              else stored),
        )

    abbrev update_found :
        Time → UpdateJobInput → Result (Option Job) → World S → Result Job × World S
    update_found now input (err e) w = (err e, w)
    update_found now input (ok none) w = (err not_found, w)
    update_found now input (ok (some job)) w =
        let details = validate_job_input P (update_attributes job input) in
        if not (is_empty details)
        then (err (validation_error validation_message details), w)
        else update_done job.status (repo.update (updated_job now job input) w.store) w

    -- `UpdateJob`
    unfoldable pub update_job : Time → Text → UpdateJobInput → World S → Result Job × World S
    unfolding updated_job
    update_job now id input w = update_found now input (repo.get_by_id id w.store) w

module _ {S : Type 0} (repo : JobRepository S) where
  abbrev only_published : Result (Option Job) → Result Job
  only_published (err e) = err e
  only_published (ok none) = err not_found
  only_published (ok (some job)) =
      if not (text_eq job.status status_published) then err not_found else ok job

  -- `GetPublishedJob`
  unfoldable pub get_published_job : Text → S → Result Job
  get_published_job id_or_slug s = only_published (repo.get_by_id_or_slug id_or_slug s)

  abbrev or_not_found : Result (Option Job) → Result Job
  or_not_found (err e) = err e
  or_not_found (ok none) = err not_found
  or_not_found (ok (some job)) = ok job

  -- `GetJob`
  unfoldable pub get_job : Text → S → Result Job
  get_job id_or_slug s = or_not_found (repo.get_by_id_or_slug id_or_slug s)

  -- `ListJobs`; a nil slice and an empty one are both [].
  unfoldable pub list_jobs : JobListFilter → S → Result (List Job × ℕ)
  list_jobs filter s =
      repo.list (record filter { page = page_of filter.page; limit = limit_of filter.limit }) s

  -- `ListPublishedJobs`
  unfoldable pub list_published_jobs : JobListFilter → S → Result (List Job × ℕ)
  list_published_jobs filter s =
      repo.list
        (record filter {
          status = status_published;
          page = page_of filter.page;
          limit = limit_of filter.limit;
        })
        s

  -- `ListDepartments`
  unfoldable pub list_departments : S → Result (List Text)
  list_departments s = repo.list_departments s

  -- `DeleteJob`
  unfoldable pub delete_job : Text → S → Result (Unit {0}) × S
  delete_job id s = repo.delete id s
