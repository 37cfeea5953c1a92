-- ===== src/Tests/Api.antt =====
-- Requests and their answers.
use job_board.Prelude.{
  ℕ, ◌-◌, Bool, ltb, ◌≡◌, refl, true, false, [], ◌∷◌, Option, none, some, All, filter, length,
  if◌then◌else◌,
}
use job_board.Prelude.Int.{pos}
use job_board.Text.{Text, txt, text_eq, trim_space}
use job_board.Domain.Types.{Job, internal, status_published, status_draft}
use job_board.Domain.Answers.{Answers}
use job_board.Storage.Resume.{Reader}
use job_board.Store.Database.{Database}
use job_board.Store.Jobs.{matches_filter, job_repository}
use job_board.Api.Responses.{answer, Paginated}
use job_board.Api.Responses.Pages.{IsPage}
use job_board.Api.Public.{Form, parsed, submission, list_jobs_handler, apply_handler}
use job_board.Api.Public.Published.{asked, public_list_shows_published}
use job_board.Api.Public.Submitted.{IsAnswered, apply_handler-IsAnswered}
use job_board.Api.RateLimit.{new_ip_rate_limiter, allow}
use job_board.Api.RateLimit.Isolated.{IsTaken, allow-IsTaken}
use job_board.Tests.Platforms.{ascii_platform}
use job_board.Tests.Applications.{one_job, accepting, map_storage, file, empty, after, app}
use job_board.Tests.Store
use job_board.Tests.Store.{pg, job}

-- The draft is not shown.
abbrev with_draft : Database
with_draft = record Store.empty { jobs = record job { status = status_draft } ∷ job ∷ [] }

abbrev query : Text → Text
query name = if text_eq name (txt "limit") then txt " 500" else txt ""

abbrev page : Paginated Job
page = record { items = job ∷ []; page = 1; limit = 100; total_items = 1; total_pages = 1 }

listing : list_jobs_handler (job_repository pg 7 (txt "x")) query with_draft ≡ answer 200 none page
unfolding list_jobs_handler text_eq trim_space txt job_board.Text.is_digit job_repository
    job_board.Domain.Formats.is_valid_job_status job_board.Service.Paging.page_of
    job_board.Service.Paging.limit_of
listing = refl

public_list_shows_published_example :
    All
      (λ job. (job.status ≡ status_published) × (matches_filter pg (asked query) job ≡ true))
      page.items
    × (page.total_items ≡ length (filter (matches_filter pg (asked query)) with_draft.jobs))
    × IsPage page
public_list_shows_published_example =
    public_list_shows_published pg 7 (txt "x") query with_draft 200 none page (λ q xs. refl) listing

abbrev value : Text → Text
value name =
    if text_eq name (txt "candidate_name")
    then txt "Ada"
    else if text_eq name (txt "candidate_email")
    then txt " ada@example.com"
    else txt ""

abbrev form : Form
form = parsed value (some (txt "cv.pdf", (pos 5, file)))

abbrev no_answers : Text → Option Answers
no_answers s = none

application :
    apply_handler ascii_platform one_job accepting
      (some map_storage)
      true
      no_answers
      internal
      (txt "app-1")
      (txt "go-engineer")
      form
      empty
    ≡ (answer 201 (some (txt "/v1/admin/applications/app-1")) (submission app), after)
unfolding apply_handler text_eq trim_space txt job_board.Domain.Candidate.validate_candidate_input
    job_board.Domain.Report.required_within job_board.Text.len
    job_board.Domain.Formats.is_valid_email job_board.Domain.Formats.matches_email
    job_board.Text.is_alnum job_board.Domain.Answers.validate_custom_answers
    job_board.Storage.Resume.validate_resume job_board.Text.to_lower job_board.Text.trim_prefix
    job_board.Storage.Names.extension job_board.Storage.Names.sanitize_filename
application = refl

apply_handler-IsAnswered_example :
    IsAnswered ascii_platform one_job accepting
      (some map_storage)
      true
      no_answers
      (txt "app-1")
      (trim_space (txt "go-engineer"))
      form
      empty
      201
      (some (txt "/v1/admin/applications/app-1"))
      (submission app)
      after
apply_handler-IsAnswered_example =
    apply_handler-IsAnswered ascii_platform one_job accepting (some map_storage) true no_answers
      internal (txt "app-1") (txt "go-engineer") form empty after 201
      (some (txt "/v1/admin/applications/app-1")) (submission app) application

-- A bucket of so many requests.
abbrev spend : ℕ → ℕ → Bool × ℕ
spend left now = (ltb 0 left, left - 1)

allow-IsTaken_example :
    IsTaken 1 spend
      (txt "10.0.0.1")
      5
      new_ip_rate_limiter
      (allow 1 spend (txt "10.0.0.1") 5 new_ip_rate_limiter)
allow-IsTaken_example = allow-IsTaken 1 spend (txt "10.0.0.1") 5 new_ip_rate_limiter

second_is_refused :
    (allow 1 spend (txt "10.0.0.1") 6 (allow 1 spend (txt "10.0.0.1") 5 new_ip_rate_limiter).1).0
    ≡ false
unfolding allow new_ip_rate_limiter text_eq txt
second_is_refused = refl
