-- ===== src/Store/Jobs/Gone.antt =====
-- What is left of a job that was deleted.
use job_board.Prelude.{
  ◌≡◌, refl, Bool, true, false, not, some, if◌then◌else◌, any, find, any-filter-not,
  find-filter-not, find-filter_kept, inl, inr, Bool-cases,
}
use job_board.Text.{Text, text_eq}
use job_board.Domain.Types.{Application, ok}
use job_board.Text.Equality.{text_eq_sound}
use job_board.Store.Database.{Database, Postgres, rows}
use job_board.Store.Jobs.{has_id, delete_cascade, delete_row}
use job_board.Store.Applications.{is_app}
use job_board.Store.Integrity.Answers.{Answered, Answered-with_uuid_read, affected_found}

-- A deletion of the job `uuid`: it and its applications are gone, every other job is there.
pub record IsGone (uuid : Text) (db after : Database) : Type 0 where
  pub job : any (has_id uuid) after.jobs ≡ false
  pub applications : any (λ app. text_eq app.job_id uuid) after.applications ≡ false
  pub others :
      (id : Text) → text_eq id uuid ≡ false → find (has_id id) after.jobs ≡ find (has_id id) db.jobs
  pub was_there : any (has_id uuid) db.jobs ≡ true
  pub kept :
      (id : Text) (app : Application)
      → find (is_app id) db.applications ≡ some app
      → text_eq app.job_id uuid ≡ false
      → find (is_app id) after.applications ≡ some app

apart : (a b c : Text) → text_eq b c ≡ false → text_eq a b ≡ true → text_eq a c ≡ false
apart a b c n e = rw (text_eq_sound a b e) n

delete_cascade-IsGone :
    (uuid : Text) (db : Database)
    → any (has_id uuid) db.jobs ≡ true
    → IsGone uuid db (delete_cascade uuid db)
unfolding delete_cascade
delete_cascade-IsGone uuid db there = record {
  job = any-filter-not (has_id uuid) db.jobs;
  applications = any-filter-not (λ app. text_eq app.job_id uuid) db.applications;
  others =
      λ id n. find-filter-not (has_id id) (has_id uuid) db.jobs (λ job e. apart job.id id uuid n e);
  was_there = there;
  kept = λ id app e n.
      find-filter_kept (is_app id) (λ app. not (text_eq app.job_id uuid)) db.applications e
        (rw n refl);
}

-- What an affected row means.
abbrev Deleted : Postgres → Text → Database → Bool → Database → Type 0
Deleted pg id db false after = Unit
Deleted pg id db true after = (uuid : Text) × (pg.read_uuid id ≡ some uuid) × IsGone uuid db after

Deleted-rows :
    (pg : Postgres) (id : Text) (db : Database) (uuid : Text)
    → pg.read_uuid id ≡ some uuid
    → Answered
        (λ (b, t). Deleted pg id db b t)
        (rows (if any (has_id uuid) db.jobs then (true, delete_cascade uuid db) else (false, db)))
Deleted-rows pg id db uuid read = elim (Bool-cases (any (has_id uuid) db.jobs)) [
  | inl there ↦ rw there (uuid, read, delete_cascade-IsGone uuid db there)
  | inr absent ↦ rw absent tt
]

-- A call of Delete that succeeds read the id as the uuid of a job that there was. Neither it nor an
-- application for it is there afterwards; all other jobs, and the applications for them, are.
pub delete_row-IsGone :
    (pg : Postgres) (id : Text) (db after : Database)
    → delete_row pg id db ≡ (ok tt, after)
    → (uuid : Text) × (pg.read_uuid id ≡ some uuid) × IsGone uuid db after
unfolding delete_row
delete_row-IsGone pg id db after e = affected_found (Deleted pg id db) _ _ db after e (
    Answered-with_uuid_read (λ (b, t). Deleted pg id db b t) pg id _
      (λ uuid read. Deleted-rows pg id db uuid read))
