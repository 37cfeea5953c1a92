-- ===== src/Store/Integrity/JobRows.antt =====
-- The statements on the jobs keep the database consistent.
use job_board.Prelude.{
  ◌≡◌, refl, ◌∙◌, true, false, not, ◌&&◌, ◌||◌, List, ◌∷◌, Option, none, some, if◌then◌else◌, any,
  filter, find, map, arith, inl, inr, Bool-cases,
}
use job_board.Domain.Types.{Job, Application, Time}
use job_board.Text.{Text, text_eq}
use job_board.Text.Equality.{text_eq_sound}
use job_board.Store.Database.{Database, Postgres}
use job_board.Store.Jobs.{
  has_id, has_slug, enums_fit, with_defaults, delete_cascade, job_row, insert_job, create_row,
  update_found, update_row, delete_row,
}
use job_board.Store.Applications.{is_app}
use job_board.Store.Integrity.Tables.{
  Unique-filter, Unique-map, Unique-replace, All-filter, All-filter_of, All-map_of, All-weaken,
  any-parts, any-map_key, any-filter_ne, find-some, id-replace,
}
use job_board.Store.Integrity.Answers.{
  Answered, AtRow, AtState, Answered-if, Answered-accepted, Answered-with_uuid,
  Answered-with_new_uuid, AtState-returning, AtState-affected, AtState-if,
}
use job_board.Store.Integrity.Rules.{JobsFit, AppFits, AppsFit, NoteFits, IsConsistent}

-- References to the jobs hold as long as no id goes.
pub AppsFit-jobs :
    (jobs more : List Job) (apps : List Application)
    → ((id : Text) → any (has_id id) jobs ≡ true → any (has_id id) more ≡ true)
    → AppsFit jobs apps
    → AppsFit more apps
AppsFit-jobs jobs more apps f h = record {
  ids = h.ids;
  rows_fit =
      All-weaken (AppFits jobs) (AppFits more) apps (λ app (e, s). (f app.job_id e, s)) h.rows_fit;
}

pub delete_cascade-IsConsistent :
    (uuid : Text) (db : Database) → IsConsistent db → IsConsistent (delete_cascade uuid db)
unfolding delete_cascade
delete_cascade-IsConsistent uuid db h = record {
  jobs_fit = record {
    ids = Unique-filter (λ job. job.id) (λ job. not (has_id uuid job)) db.jobs h.jobs_fit.ids;
    slugs = Unique-filter (λ job. job.slug) (λ job. not (has_id uuid job)) db.jobs h.jobs_fit.slugs;
    enums =
        All-filter (λ job. enums_fit job ≡ true) (λ job. not (has_id uuid job)) db.jobs
          h.jobs_fit.enums;
  };
  apps_fit = record {
    ids =
        Unique-filter (λ app. app.id) (λ app. not (text_eq app.job_id uuid)) db.applications
          h.apps_fit.ids;
    rows_fit =
        All-filter_of (AppFits db.jobs) (AppFits (filter (λ job. not (has_id uuid job)) db.jobs))
          (λ app. not (text_eq app.job_id uuid)) db.applications
          (λ app keep (e, s).
            (any-filter_ne (λ job. job.id) app.job_id uuid db.jobs (ground arith) ∙ e, s))
          h.apps_fit.rows_fit;
  };
  notes_fit = record {
    ids =
        Unique-filter (λ note. note.id)
          (λ note. not (
            any (λ app. text_eq app.id note.application_id)
              (filter (λ app. text_eq app.job_id uuid) db.applications)))
          db.notes h.notes_fit.ids;
    rows_fit =
        All-filter_of (NoteFits db.applications)
          (NoteFits (filter (λ app. not (text_eq app.job_id uuid)) db.applications))
          (λ note. not (
            any (λ app. text_eq app.id note.application_id)
              (filter (λ app. text_eq app.job_id uuid) db.applications)))
          db.notes
          (λ note keep e.
            any-parts (is_app note.application_id) (λ app. text_eq app.job_id uuid) db.applications
              e (ground arith))
          h.notes_fit.rows_fit;
  };
  key_ids = h.key_ids;
  key_hashes = h.key_hashes;
  subscription_ids = h.subscription_ids;
}

-- A database that differs in its jobs, with the same ids at least.
jobs-IsConsistent :
    (db : Database) (jobs : List Job)
    → IsConsistent db
    → JobsFit jobs
    → ((id : Text) → any (has_id id) db.jobs ≡ true → any (has_id id) jobs ≡ true)
    → IsConsistent (record db { jobs = jobs })
jobs-IsConsistent db jobs h fit f = record {
  jobs_fit = fit;
  apps_fit = AppsFit-jobs db.jobs jobs db.applications f h.apps_fit;
  notes_fit = h.notes_fit;
  key_ids = h.key_ids;
  key_hashes = h.key_hashes;
  subscription_ids = h.subscription_ids;
}

new-JobsFit :
    (new : Job) (jobs : List Job)
    → JobsFit jobs
    → any (has_id new.id) jobs ≡ false
    → any (has_slug new.slug) jobs ≡ false
    → enums_fit new ≡ true
    → JobsFit (new ∷ jobs)
new-JobsFit new jobs h e f g = record {
  ids = (e, h.ids);
  slugs = (f, h.slugs);
  enums = (g, h.enums);
}

changed-JobsFit :
    (uuid : Text) (new : Job) (jobs : List Job)
    → JobsFit jobs
    → new.id ≡ uuid
    → any (λ other. has_slug new.slug other && not (has_id uuid other)) jobs ≡ false
    → enums_fit new ≡ true
    → JobsFit (map (λ job. if has_id uuid job then new else job) jobs)
changed-JobsFit uuid new jobs h e free fits = record {
  ids =
      Unique-map (λ job. job.id) (λ job. if has_id uuid job then new else job) jobs
        (λ job. id-replace (λ job. job.id) (λ job. job.slug) uuid new job e) h.ids;
  slugs = Unique-replace (λ job. job.id) (λ job. job.slug) uuid new jobs free h.ids h.slugs;
  enums =
      All-map_of (λ job. enums_fit job ≡ true) (λ job. enums_fit job ≡ true)
        (λ job. if has_id uuid job then new else job) jobs
        (λ job was. elim (Bool-cases (has_id uuid job)) [
          | inl same ↦ rw same fits
          | inr apart ↦ rw apart was
        ])
        h.enums;
}

module _ (pg : Postgres) (db : Database) (h : IsConsistent db) where
  insert_job-IsConsistent :
      (now : Time) (uuid : Text) (job : Job)
      → Answered (AtRow IsConsistent) (insert_job pg now uuid job db)
  unfolding insert_job
  insert_job-IsConsistent now uuid job =
      let new = job_row pg (record job { id = uuid; created_at = now; updated_at = now }) in
      Answered-if (AtRow IsConsistent) _ _ _ (λ e. tt)
        (λ (fits : not (enums_fit job) ≡ false).
          Answered-accepted (AtRow IsConsistent) (pg.refuses_job new) _ (
            Answered-if (AtRow IsConsistent) _ _ _ (λ e. tt)
              (λ (fresh : any (has_id uuid) db.jobs || any (has_slug job.slug) db.jobs ≡ false).
                jobs-IsConsistent db (new ∷ db.jobs) h
                  (new-JobsFit new db.jobs h.jobs_fit (ground arith) (ground arith) (ground arith))
                  (λ id e. ground arith))))

  pub create_row-IsConsistent :
      (now : Time) (fresh : Text) (job : Job)
      → AtState IsConsistent (create_row pg now fresh job db)
  unfolding create_row
  create_row-IsConsistent now fresh job = AtState-returning IsConsistent _ _ db h (
      Answered-with_new_uuid (AtRow IsConsistent) pg fresh job.id _
        (λ uuid. insert_job-IsConsistent now uuid (with_defaults job)))

  update_found-IsConsistent :
      (now : Time) (uuid : Text) (job : Job) (old : Option Job)
      → enums_fit job ≡ true
      → find (has_id uuid) db.jobs ≡ old
      → Answered (AtRow IsConsistent) (update_found pg now uuid job db old)
  update_found-IsConsistent now uuid job none fits found = tt
  update_found-IsConsistent now uuid job (some old) fits found =
      let new =
        job_row pg (record job { id = old.id; created_at = old.created_at; updated_at = now }) in
      let same : old.id ≡ uuid =
        text_eq_sound old.id uuid (find-some (has_id uuid) db.jobs found) in
      Answered-accepted (AtRow IsConsistent) (pg.refuses_job new) _ (
        Answered-if (AtRow IsConsistent) _ _ _ (λ e. tt)
          (λ (free : any (λ other. has_slug job.slug other && not (has_id uuid other)) db.jobs
              ≡ false).
            jobs-IsConsistent db (map (λ row. if has_id uuid row then new else row) db.jobs) h
              (changed-JobsFit uuid new db.jobs h.jobs_fit same free fits)
              (λ id e.
                any-map_key (λ job. job.id) (λ row. if has_id uuid row then new else row) id db.jobs
                  (λ row. id-replace (λ job. job.id) (λ job. job.slug) uuid new row same)
                ∙ e)))

  pub update_row-IsConsistent :
      (now : Time) (job : Job) → AtState IsConsistent (update_row pg now job db)
  unfolding update_row
  update_row-IsConsistent now job = AtState-returning IsConsistent _ _ db h (
      Answered-with_uuid (AtRow IsConsistent) pg job.id _ (λ uuid.
        Answered-if (AtRow IsConsistent) _ _ _
          (λ (fits : enums_fit job ≡ true).
            update_found-IsConsistent now uuid job (find (has_id uuid) db.jobs) fits refl)
          (λ e. tt)))

  pub delete_row-IsConsistent : (id : Text) → AtState IsConsistent (delete_row pg id db)
  unfolding delete_row
  delete_row-IsConsistent id = AtState-affected IsConsistent _ _ db h (
      Answered-with_uuid (AtState IsConsistent) pg id _ (λ uuid.
        AtState-if IsConsistent (any (has_id uuid) db.jobs) (true, delete_cascade uuid db)
          (false, db) (delete_cascade-IsConsistent uuid db h) h))
