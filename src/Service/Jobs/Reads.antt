-- ===== src/Service/Jobs/Reads.antt =====
-- What the reading operations of the job service give.
use job_board.Prelude.{
  ℕ, ◌≡◌, ◌↔◌, refl, ◌≤◌, inl, inr, Bool-cases, List, Option, none, some, true, ap, ◌∙◌,
}
use job_board.Prelude.Int.{ℤ, pos}
use job_board.Text.{Text, text_eq}
use job_board.Text.Equality.{text_eq_sound, text_eq_refl}
use job_board.Domain.Types.{Job, JobListFilter, Result, ok, err, status_published}
use job_board.Service.World.{JobRepository}
use job_board.Service.Paging.{limit_of, page_of_bounds, limit_of_bounds}
use job_board.Service.Jobs.{get_published_job, only_published, list_published_jobs}

module _ {S : Type 0} (repo : JobRepository S) where
  only_published_iff :
      (found : Result (Option Job)) (job : Job)
      → (only_published repo found ≡ ok job)
        ↔ ((found ≡ ok (some job)) × (job.status ≡ status_published))
  only_published_iff (err e) job = (λ p. cc p, λ h. cc (h.0))
  only_published_iff (ok none) job = (λ p. cc p, λ h. cc (h.0))
  only_published_iff (ok (some found)) job =
      elim (Bool-cases (text_eq found.status status_published)) [
        | inl published ↦ (
          λ p.
              let same : found ≡ job = cc (rw published at p) in
              (rw same refl, rw (← same) (text_eq_sound found.status status_published published)),
          λ h. rw published (cc (h.0)),
        )
        | inr hidden ↦ (
          λ p. cc (rw hidden at p),
          λ h.
              let same : found ≡ job = cc (h.0) in
              let is_published : text_eq found.status status_published ≡ true =
                rw (same, h.1) (text_eq_refl status_published) in
              cc (rw is_published at hidden),
        )
      ]

  -- GetPublishedJob gives exactly the job that the repository has under this id or slug, if it is
  -- published.
  pub get_published_job_iff :
      (id_or_slug : Text) (s : S) (job : Job)
      → (get_published_job repo id_or_slug s ≡ ok job)
        ↔ ((repo.get_by_id_or_slug id_or_slug s ≡ ok (some job)) × (job.status ≡ status_published))
  unfolding get_published_job
  get_published_job_iff id_or_slug s job =
      only_published_iff (repo.get_by_id_or_slug id_or_slug s) job

  -- ListPublishedJobs asks the repository for published jobs only, for a page from 1 on, and for
  -- at least 1 and at most 100 jobs, whatever the filter asked for.
  pub list_published_jobs_bounds :
      (filter : JobListFilter) (s : S)
      → (page limit : ℕ) × (1 ≤ page)
        × (1 ≤ limit)
        × (limit ≤ 100)
        × (list_published_jobs repo filter s
            ≡ repo.list
                (record filter { status = status_published; page = pos page; limit = pos limit })
                s)
  unfolding list_published_jobs
  list_published_jobs_bounds filter s =
      let asked : ℤ → ℤ → Result (List Job × ℕ) =
        λ p l. repo.list (record filter { status = status_published; page = p; limit = l }) s in
      let (page, page_is, page_low) = page_of_bounds filter.page in
      let (limit, limit_is, limit_low, limit_high) = limit_of_bounds filter.limit in
      (
        page,
        limit,
        page_low,
        limit_low,
        limit_high,
        (ap (λ p. asked p (limit_of filter.limit)) page_is ∙ ap (asked (pos page)) limit_is),
      )
