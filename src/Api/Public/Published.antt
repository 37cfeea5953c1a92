-- ===== src/Api/Public/Published.antt =====
-- What the public list of jobs shows: the handler over the service and the repository.
use job_board.Prelude.{
  ℕ, zero, suc, ◌-◌, ◌*◌, ◌%◌, ◌≡◌, refl, sym, ap, ◌∙◌, Bool, true, false, not, List, [], ◌∷◌,
  Option, if◌then◌else◌, is_empty, any, All-of_any-not, any-not-filter, filter, take, drop, All,
  length, ltb, arith, inl, inr, Bool-cases,
}
use job_board.Text.{Text, txt, text_eq}
use job_board.Text.Equality.{text_eq_sound}
use job_board.Domain.Types.{Job, JobListFilter, Time, status_published, Result, ok}
use job_board.Service.Jobs.{list_published_jobs}
use job_board.Service.Paging.{page_of, limit_of}
use job_board.Store.Database.{Database, Postgres, Answer, rows, error, failed, without_uuid, to_ℕ}
use job_board.Store.Jobs.{
  page_rows, matches_filter, filter_fits, list_rows, job_repository, counted, listed, slice,
}
use job_board.Store.Integrity.Tables.{All-weaken}
use job_board.Store.Integrity.Answers.{without_uuid-rows}
use job_board.Api.Responses.{answer, Paginated}
use job_board.Api.Queries.{parse_job_list_query}
use job_board.Api.Responses.Pages.{IsPage, Paginated-IsPage, respond_page-answer}
use job_board.Api.Queries.Bounds.{parse_page_bounds, parse_limit_bounds}
use job_board.Api.Public.{only_internal, list_jobs_handler}

All-take {κ} : {A : Type 0} (P : A → Type κ) (n : ℕ) (xs : List A) → All P xs → All P (take n xs)
All-take P zero xs h = tt
All-take P (suc n) [] h = tt
All-take P (suc n) (x ∷ xs) (p, h) = (p, All-take P n xs h)

All-drop {κ} : {A : Type 0} (P : A → Type κ) (n : ℕ) (xs : List A) → All P xs → All P (drop n xs)
All-drop P zero xs h = h
All-drop P (suc n) [] h = tt
All-drop P (suc n) (x ∷ xs) (p, h) = All-drop P n xs h

counted-ok :
    {A : Type 0} (what : Text) (a : Answer ℕ) (k : ℕ → Result A) (r : A)
    → counted what a k ≡ ok r
    → (n : ℕ) × (a ≡ rows n) × (k n ≡ ok r)
counted-ok what (rows n) k r e = (n, refl, e)
counted-ok what (error x) k r e = cc

listed-ok :
    {A : Type 0} (what : Text) (n : ℕ) (a : Answer (List A)) (xs : List A) (total : ℕ)
    → listed what n a ≡ ok (xs, total)
    → (a ≡ rows xs) × (n ≡ total)
listed-ok what n (rows ys) xs total e = let same : ys ≡ xs = cc in (ap rows same, cc)
listed-ok what n (error x) xs total e = cc

page_rows-All :
    {A : Type 0} (P : A → Type 0) (page limit : ℕ) (xs ys : List A)
    → page_rows page limit xs ≡ rows ys
    → All P xs
    → All P ys
unfolding page_rows
page_rows-All P page limit xs ys e h =
    let offset = (page - 1) * limit % 18446744073709551616 in
    elim (Bool-cases (ltb offset 9223372036854775808)) [
      | inl fits ↦
          let same : slice offset limit xs ≡ ys = cc (rw fits at e) in
          rw (← same) (All-take P limit (drop offset xs) (All-drop P offset xs h))
      | inr too_far ↦ cc (rw too_far at e)
    ]

count_lem :
    (fits : Bool) (k n : ℕ)
    → (if fits then rows k else error (failed (txt "invalid input value for enum"))) ≡ rows n
    → k ≡ n
count_lem true k n e = cc
count_lem false k n e = cc

module _ (pg : Postgres) where
  matches_filter-status :
      (f : JobListFilter) (job : Job)
      → f.status ≡ status_published
      → matches_filter pg f job ≡ true
      → job.status ≡ status_published
  unfolding matches_filter
  matches_filter-status f job e h =
      let not_blank : text_eq f.status (txt "") ≡ false = rw e (unfold text_eq txt in refl) in
      let same : text_eq job.status f.status ≡ true = ground (arith, not_blank) in
      text_eq_sound job.status f.status same ∙ e

  -- The jobs and the total that List gives for a filter.
  list_rows-Matching :
      (f : JobListFilter) (db : Database) (jobs : List Job) (total : ℕ)
      → ((q : Job → Bool) (xs : List Job) → any q (pg.order_jobs xs) ≡ any q xs)
      → list_rows pg f db ≡ ok (jobs, total)
      → All (λ job. matches_filter pg f job ≡ true) jobs
        × (total ≡ length (filter (matches_filter pg f) db.jobs))
  unfolding list_rows
  list_rows-Matching f db jobs total orders given =
      let found = filter (matches_filter pg f) db.jobs in
      let number = to_ℕ (page_of f.page) in
      let limit = to_ℕ (limit_of f.limit) in
      let page_answer = page_rows number limit (pg.order_jobs found) in
      let count : Answer ℕ =
        if filter_fits pg f
        then rows (length found)
        else error (failed (txt "invalid input value for enum")) in
      let give : ℕ → Result (List Job × ℕ) =
        λ n. listed (txt "failed to query jobs list") n (without_uuid pg page_answer) in
      let (n, total_rows, answered) =
        counted-ok (txt "failed to count jobs") (without_uuid pg count) give (jobs, total) given in
      let (shown, same_total) =
        listed-ok (txt "failed to query jobs list") n (without_uuid pg page_answer) jobs total
          answered in
      let page = without_uuid-rows pg page_answer shown in
      let counts =
        count_lem (filter_fits pg f) (length found) n (without_uuid-rows pg count total_rows) in
      let all_match = All-of_any-not (matches_filter pg f) (pg.order_jobs found) (
        orders (λ job. not (matches_filter pg f job)) found
        ∙ any-not-filter (matches_filter pg f) db.jobs) in
      (
        page_rows-All (λ job. matches_filter pg f job ≡ true) number limit (pg.order_jobs found)
            jobs page all_match,
        sym same_total ∙ sym counts,
      )

-- The filter that a request asks with: the one of its query, for published jobs.
abbrev pub asked : (Text → Text) → JobListFilter
asked query = record ((parse_job_list_query query).0) { status = status_published }

-- Every job in an answer to GET /v1/public/jobs is published, whatever the query asks for, and matches
-- the filters of the query; the total is the number of all jobs of the database that are published
-- and match. The page is numbered from 1 on, with a limit from 1 to 100, and the number of pages is
-- the least that holds the total. The database must give the rows that it selects, and no others, in
-- some order.
pub public_list_shows_published :
    (pg : Postgres) (now : Time) (fresh : Text) (query : Text → Text) (db : Database) (status : ℕ)
    (location : Option Text) (p : Paginated Job)
    → ((q : Job → Bool) (xs : List Job) → any q (pg.order_jobs xs) ≡ any q xs)
    → list_jobs_handler (job_repository pg now fresh) query db ≡ answer status location p
    → All
        (λ job. (job.status ≡ status_published) × (matches_filter pg (asked query) job ≡ true))
        p.items
      × (p.total_items ≡ length (filter (matches_filter pg (asked query)) db.jobs))
      × IsPage p
unfolding list_jobs_handler parse_job_list_query list_published_jobs job_repository matches_filter
public_list_shows_published pg now fresh query db status location p orders e =
    let details = (parse_job_list_query query).1 in
    let filter = (parse_job_list_query query).0 in
    elim (Bool-cases (not (is_empty details))) [
      | inl bad ↦ cc (rw bad at e)
      | inr good ↦
          let (found, page, limit, pages) =
            respond_page-answer (only_internal (txt "Failed to retrieve job listings."))
              (to_ℕ filter.page) (to_ℕ filter.limit)
              (list_published_jobs (job_repository pg now fresh) filter db) status location p
              (rw good at e) in
          let (matching, total) =
            list_rows-Matching pg
              (record filter {
                status = status_published;
                page = page_of filter.page;
                limit = limit_of filter.limit;
              })
              db p.items p.total_items orders found in
          (
            All-weaken _ _ p.items (λ job h. (matches_filter-status pg (asked query) job refl h, h))
                matching,
            total,
            Paginated-IsPage p (to_ℕ filter.page) (to_ℕ filter.limit)
                (parse_page_bounds (query (txt "page"))) (parse_limit_bounds (query (txt "limit")))
                page limit pages,
          )
    ]
