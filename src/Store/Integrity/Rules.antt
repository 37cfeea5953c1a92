-- ===== src/Store/Integrity/Rules.antt =====
-- The primary keys, unique columns, enumeration types and references of
-- migrations/000001_init_schema.up.sql.
use job_board.Prelude.{◌≡◌, true, List, any, All}
use job_board.Domain.Types.{Job, Application, ApplicationNote}
use job_board.Domain.Formats.{is_valid_stage}
use job_board.Store.Database.{Database}
use job_board.Store.Jobs.{has_id, enums_fit}
use job_board.Store.Applications.{is_app}
use job_board.Store.Integrity.Tables.{Unique}

-- The rows of the jobs' table.
pub record JobsFit (jobs : List Job) : Type 0 where
  pub ids : Unique (λ job. job.id) jobs
  pub slugs : Unique (λ job. job.slug) jobs
  pub enums : All (λ job. enums_fit job ≡ true) jobs

-- An application of one of the jobs, at a stage that there is.
abbrev pub AppFits : List Job → Application → Type 0
AppFits jobs app = (any (has_id app.job_id) jobs ≡ true) × (is_valid_stage app.stage ≡ true)

pub record AppsFit (jobs : List Job) (apps : List Application) : Type 0 where
  pub ids : Unique (λ app. app.id) apps
  pub rows_fit : All (AppFits jobs) apps

-- A note of one of the applications.
abbrev pub NoteFits : List Application → ApplicationNote → Type 0
NoteFits apps note = any (is_app note.application_id) apps ≡ true

pub record NotesFit (apps : List Application) (notes : List ApplicationNote) : Type 0 where
  pub ids : Unique (λ note. note.id) notes
  pub rows_fit : All (NoteFits apps) notes

-- The whole database.
pub record IsConsistent (db : Database) : Type 0 where
  pub jobs_fit : JobsFit db.jobs
  pub apps_fit : AppsFit db.jobs db.applications
  pub notes_fit : NotesFit db.applications db.notes
  pub key_ids : Unique (λ key. key.id) db.keys
  pub key_hashes : Unique (λ key. key.key_hash) db.keys
  pub subscription_ids : Unique (λ sub. sub.id) db.subscriptions
