-- ===== src/Tests/Store/Jobs.antt =====
-- Jobs: created, found, listed and deleted.
use mathlib.Core.List.{Perm}
use mathlib.Core.List.Perm
use job_board.Prelude.{ℕ, ◌+◌, ◌≡◌, refl, true, false, List, [], ◌∷◌, none, some, arith, filter}
use job_board.Prelude.Int.{pos}
use job_board.Text.{Text, txt, text_eq}
use job_board.Domain.Types.{Job, JobListFilter, Application, ok, status_published, stage_applied}
use job_board.Service.World.{World}
use job_board.Service.Paging.{limit_of}
use job_board.Service.Jobs.{CreateJobInput, create_job, get_published_job}
use job_board.Store.Uuid.{is_uuid}
use job_board.Store.Database.{Database}
use job_board.Store.Jobs.{delete_row, filter_fits, matches_filter, job_repository}
use job_board.Store.Jobs.Found.{created_job_is_found}
use job_board.Store.Jobs.Gone.{IsGone, delete_row-IsGone}
use job_board.Store.Jobs.Newest.{NewestFirst}
use job_board.Store.Jobs.Pages.{pages, pages-Perm}
use job_board.Tests.Platforms.{ascii_platform}
use job_board.Tests.Store.{pg, empty, job, job_id}

abbrev posting : CreateJobInput
posting = record {
  slug = txt "go-engineer";
  title = txt "Go Engineer";
  department = txt "Engineering";
  location = txt "Berlin";
  employment_type = txt "";
  experience_level = none;
  salary_min = none;
  salary_max = none;
  salary_currency = txt "";
  description_markdown = txt "Build";
  status = status_published;
  custom_fields = [];
}

abbrev nothing : World Database
nothing = record { store = empty; events = [] }

abbrev created : Job
created = record job { created_at = 7; updated_at = 7 }

abbrev after : World Database
after = (create_job ascii_platform (job_repository pg 7 job_id) true 7 job_id posting nothing).1

creation :
    create_job ascii_platform (job_repository pg 7 job_id) true 7 job_id posting nothing
    ≡ (ok created, after)
unfolding create_job job_board.Domain.JobInput.validate_job_input
    job_board.Domain.Report.required_within text_eq job_board.Text.trim_space txt job_board.Text.len
    job_board.Domain.Report.report_if job_board.Domain.Formats.is_valid_employment_type
    job_board.Domain.Formats.is_valid_job_status job_board.Domain.Slug.is_valid_slug
    job_board.Domain.Slug.matches_slug job_board.Domain.CustomFields.validate_custom_fields
    job_repository
creation = refl

slug_is_no_uuid : is_uuid (txt "go-engineer") ≡ false
unfolding is_uuid txt job_board.Text.is_digit
slug_is_no_uuid = refl

id_is_uuid : is_uuid job_id ≡ true
unfolding is_uuid txt job_board.Text.is_digit
id_is_uuid = refl

created_job_is_found_example :
    (get_published_job (job_repository pg 8 (txt "x")) (txt "go-engineer") after.store ≡ ok created)
    × (get_published_job (job_repository pg 8 (txt "x")) job_id after.store ≡ ok created)
created_job_is_found_example =
    created_job_is_found ascii_platform pg pg true 7 8 job_id job_id (txt "x") posting nothing after
      created creation refl refl slug_is_no_uuid id_is_uuid refl

abbrev application : Application
application = record {
  id = txt "app-1";
  job_id = job_id;
  candidate_name = txt "Ada";
  candidate_email = txt "ada@example.com";
  candidate_phone = none;
  linkedin_url = none;
  resume_s3_key = txt "key";
  resume_filename = txt "cv.pdf";
  custom_answers = [];
  stage = stage_applied;
  rejected_reason = none;
  created_at = 0;
  updated_at = 0;
}

abbrev other : Job
other = record job { id = txt "job-2"; slug = txt "other" }

abbrev two_jobs : Database
two_jobs = record empty { jobs = job ∷ other ∷ []; applications = application ∷ [] }

deletion : delete_row pg job_id two_jobs ≡ (ok tt, record empty { jobs = other ∷ [] })
unfolding delete_row text_eq txt
deletion = refl

delete_row-IsGone_example :
    (uuid : Text) × (some job_id ≡ some uuid)
    × IsGone uuid two_jobs (record empty { jobs = other ∷ [] })
delete_row-IsGone_example =
    delete_row-IsGone pg job_id two_jobs (record empty { jobs = other ∷ [] }) deletion

abbrev one_a_page : JobListFilter
one_a_page = record {
  department = txt "";
  location = txt "";
  employment_type = txt "";
  status = txt "";
  page = pos 1;
  limit = pos 1;
}

fits : filter_fits pg one_a_page ≡ true
unfolding text_eq txt
fits = refl

limit_is : limit_of (pos 1) ≡ pos 1
unfolding limit_of
limit_is = refl

-- The newer one of two jobs.
abbrev newer : Job
newer = record job { id = txt "job-3"; slug = txt "newer"; created_at = job.created_at + 1 }

abbrev newer_first : Database
newer_first = record empty { jobs = newer ∷ job ∷ [] }

abbrev as_stored : ℕ → List Job → List Job
as_stored p jobs = jobs

matching_is : filter (matches_filter pg one_a_page) newer_first.jobs ≡ newer ∷ job ∷ []
unfolding matches_filter text_eq txt
matching_is = refl

pages-Perm_example :
    Perm
      (pages pg as_stored one_a_page newer_first 2)
      (filter (matches_filter pg one_a_page) newer_first.jobs)
    × NewestFirst (λ job. job.created_at) (pages pg as_stored one_a_page newer_first 2)
pages-Perm_example =
    pages-Perm pg as_stored one_a_page newer_first 1 2 refl fits limit_is (λ p. Perm.refl _)
      (λ p. rw matching_is ((omega arith, tt), (tt, tt))) (rw matching_is (omega arith))
      (omega arith)
