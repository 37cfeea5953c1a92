-- ===== src/Store/Jobs.antt =====
-- internal/store/postgres/job_repo.go
pub mod Found
pub mod Gone
pub mod Pages
pub mod Newest
use job_board.Prelude.{
  ℕ, ◌-◌, ◌*◌, ◌%◌, Bool, true, false, not, ◌&&◌, ◌||◌, List, [], ◌∷◌, Option, none, some, ltb,
  if◌then◌else◌, any, filter, find, map, take, drop, length, ◌++◌,
}
use job_board.Text.{Text, txt, text_eq}
use job_board.Domain.Types.{
  Job, JobListFilter, Time, status_draft, status_published, full_time, is_not_found, Result, ok,
  err,
}
use job_board.Domain.Formats.{is_valid_job_status, is_valid_employment_type}
use job_board.Service.World.{JobRepository}
use job_board.Service.Paging.{page_of, limit_of}
use job_board.Store.Uuid.{is_uuid}
use job_board.Store.Database.{
  Database, Postgres, unique_violation, failed, plain_error, Answer, rows, error, with_uuid,
  without_uuid, with_new_uuid, accepted, one_row, affected, returning, to_ℕ,
}

-- `if s == "" { s = default }`
abbrev or_else : Text → Text → Text
or_else s default = if text_eq s (txt "") then default else s

abbrev pub has_id : Text → Job → Bool
has_id id job = text_eq job.id id

abbrev pub has_slug : Text → Job → Bool
has_slug slug job = text_eq job.slug slug

-- The values of the enumeration types job_status and employment_type.
abbrev pub enums_fit : Job → Bool
enums_fit job = is_valid_job_status job.status && is_valid_employment_type job.employment_type

-- The job with the defaults that `Create` gives it.
unfoldable pub with_defaults : Job → Job
with_defaults job = record job {
  salary_currency = or_else job.salary_currency (txt "USD");
  status = or_else job.status status_draft;
  employment_type = or_else job.employment_type full_time;
}

-- `ON DELETE CASCADE`: the rows that go with a job.
unfoldable pub delete_cascade : Text → Database → Database
delete_cascade uuid db =
    let gone = filter (λ app. text_eq app.job_id uuid) db.applications in
    record db {
      jobs = filter (λ job. not (has_id uuid job)) db.jobs;
      applications = filter (λ app. not (text_eq app.job_id uuid)) db.applications;
      notes = filter (λ note. not (any (λ app. text_eq app.id note.application_id) gone)) db.notes;
    }

abbrev replace_job : Text → Job → List Job → List Job
replace_job uuid new = map (λ job. if has_id uuid job then new else job)

-- `rows[offset : offset + limit]`, as far as there are rows.
abbrev pub slice {ℓ} : {A : Type ℓ} → ℕ → ℕ → List A → List A
slice offset limit xs = take limit (drop offset xs)

-- The offset (page - 1) * limit of 64 bits; a negative one is an error of the statement.
unfoldable pub page_rows {ℓ} : {A : Type ℓ} → ℕ → ℕ → List A → Answer (List A)
page_rows page limit xs =
    let offset = (page - 1) * limit % 18446744073709551616 in
    if ltb offset 9223372036854775808
    then rows (slice offset limit xs)
    else error (failed (txt "OFFSET must not be negative"))

abbrev pub listed {ℓ} : {A : Type ℓ} → Text → ℕ → Answer (List A) → Result (List A × ℕ)
listed what total (rows xs) = ok (xs, total)
listed what total (error e) = err (plain_error what e)

abbrev pub counted {ℓ} : {A : Type ℓ} → Text → Answer ℕ → (ℕ → Result A) → Result A
counted what (rows total) k = k total
counted what (error e) k = err (plain_error what e)

-- The departments that the `DISTINCT` query finds, each once.
unfoldable pub distinct : List Text → List Text
distinct [] = []
distinct (x ∷ xs) = x ∷ filter (λ y. not (text_eq x y)) (distinct xs)

module _ (pg : Postgres) where
  -- The row that is kept for a job.
  abbrev pub job_row : Job → Job
  job_row job = record job {
    salary_min = elim (job.salary_min) [ none ↦ none | some x ↦ some (pg.numeric x) ];
    salary_max = elim (job.salary_max) [ none ↦ none | some x ↦ some (pg.numeric x) ];
  }

  unfoldable pub insert_job : Time → Text → Job → Database → Answer (Option (Job × Database))
  insert_job now uuid job db =
      let new = record job { id = uuid; created_at = now; updated_at = now } in
      if not (enums_fit job)
      then error (failed (txt "invalid input value for enum"))
      else accepted (pg.refuses_job (job_row new)) (
          if any (has_id uuid) db.jobs || any (has_slug job.slug) db.jobs
          then error unique_violation
          else rows (some (new, record db { jobs = job_row new ∷ db.jobs })))

  -- `Create`, at the time NOW() and with the random uuid `fresh`.
  unfoldable pub create_row : Time → Text → Job → Database → Result Job × Database
  unfolding with_defaults insert_job
  create_row now fresh job db =
      returning (txt "failed to create job")
        (with_new_uuid pg fresh job.id (λ uuid. insert_job now uuid (with_defaults job) db)) db

  -- `GetByID`
  unfoldable pub get_by_id : Text → Database → Result (Option Job)
  get_by_id id db =
      one_row (txt "failed to get job by id")
        (with_uuid pg id (λ uuid. rows (find (has_id uuid) db.jobs)))

  -- `GetBySlug`
  unfoldable pub get_by_slug : Text → Database → Result (Option Job)
  get_by_slug slug db =
      one_row (txt "failed to get job by slug")
        (without_uuid pg (rows (find (has_slug slug) db.jobs)))

  abbrev or_by_slug : Result (Option Job) → Result (Option Job) → Result (Option Job)
  or_by_slug (ok job) by_slug = ok job
  or_by_slug (err e) by_slug = if is_not_found e then by_slug else err e

  -- `GetByIDOrSlug`
  unfoldable pub get_by_id_or_slug : Text → Database → Result (Option Job)
  unfolding get_by_id get_by_slug
  get_by_id_or_slug id_or_slug db =
      let by_slug = get_by_slug id_or_slug db in
      if is_uuid id_or_slug then or_by_slug (get_by_id id_or_slug db) by_slug else by_slug

  -- The WHERE clause of `List`.
  unfoldable pub matches_filter : JobListFilter → Job → Bool
  matches_filter f job =
      (text_eq f.department (txt "") || text_eq job.department f.department)
      && ((text_eq f.location (txt "")
            || pg.ilike job.location (txt "%" ++ (f.location ++ txt "%")))
          && ((text_eq f.employment_type (txt "") || text_eq job.employment_type f.employment_type)
              && (text_eq f.status (txt "") || text_eq job.status f.status)))

  -- A filter whose enumerations PostgreSQL can read.
  abbrev pub filter_fits : JobListFilter → Bool
  filter_fits f =
      (text_eq f.employment_type (txt "") || is_valid_employment_type f.employment_type)
      && (text_eq f.status (txt "") || is_valid_job_status f.status)

  -- `List`
  unfoldable pub list_rows : JobListFilter → Database → Result (List Job × ℕ)
  unfolding matches_filter page_rows
  list_rows f db =
      let found = filter (matches_filter f) db.jobs in
      counted (txt "failed to count jobs")
        (without_uuid pg (
          if filter_fits f
          then rows (length found)
          else error (failed (txt "invalid input value for enum"))))
        (λ total. listed (txt "failed to query jobs list") total (
          without_uuid pg
            (page_rows (to_ℕ (page_of f.page)) (to_ℕ (limit_of f.limit)) (pg.order_jobs found))))

  abbrev departments : Answer (List Text) → Result (List Text)
  departments (rows xs) = ok xs
  departments (error e) = err (plain_error (txt "failed to list departments") e)

  -- `ListDepartments`
  unfoldable pub list_departments : Database → Result (List Text)
  unfolding distinct
  list_departments db = departments (
      without_uuid pg (
        rows (
          pg.order_texts (
            distinct (
              map (λ job. job.department)
                (filter (λ job. text_eq job.status status_published) db.jobs))))))

  abbrev pub update_found :
      Time → Text → Job → Database → Option Job → Answer (Option (Job × Database))
  update_found now uuid job db none = rows none
  update_found now uuid job db (some old) =
      let new = record job { id = old.id; created_at = old.created_at; updated_at = now } in
      accepted (pg.refuses_job (job_row new)) (
        if any (λ other. has_slug job.slug other && not (has_id uuid other)) db.jobs
        then error unique_violation
        else rows (
            some (
              record job { updated_at = now },
              record db { jobs = replace_job uuid (job_row new) db.jobs },
            )))

  -- `Update`
  unfoldable pub update_row : Time → Job → Database → Result Job × Database
  update_row now job db =
      returning (txt "failed to update job")
        (with_uuid pg job.id (λ uuid.
          if enums_fit job
          then update_found now uuid job db (find (has_id uuid) db.jobs)
          else error (failed (txt "invalid input value for enum"))))
        db

  -- `Delete`
  unfoldable pub delete_row : Text → Database → Result (Unit {0}) × Database
  unfolding delete_cascade
  delete_row id db =
      affected (txt "failed to delete job")
        (with_uuid pg id (λ uuid.
          rows (if any (has_id uuid) db.jobs then (true, delete_cascade uuid db) else (false, db))))
        db

  -- The repository that `NewJobRepository` makes.
  unfoldable pub job_repository : Time → Text → JobRepository Database
  unfolding create_row get_by_id get_by_id_or_slug list_rows list_departments update_row delete_row
  job_repository now fresh = record {
    create = create_row now fresh;
    get_by_id = get_by_id;
    get_by_id_or_slug = get_by_id_or_slug;
    list = list_rows;
    list_departments = list_departments;
    update = update_row now;
    delete = delete_row;
  }
