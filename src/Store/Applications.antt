-- ===== src/Store/Applications.antt =====
-- internal/store/postgres/application_repo.go
use job_board.Prelude.{
  ℕ, Bool, true, false, not, ◌&&◌, ◌||◌, List, ◌∷◌, ◌++◌, Option, none, some, if◌then◌else◌, any,
  filter, find, map, length,
}
use job_board.Text.{Text, txt, text_eq}
use job_board.Domain.Types.{
  Application, ApplicationListFilter, ApplicationStage, Time, stage_applied, Result, err,
}
use job_board.Domain.Formats.{is_valid_stage}
use job_board.Service.World.{ApplicationRepository}
use job_board.Service.Paging.{page_of, limit_of}
use job_board.Store.Database.{
  Database, Postgres, unique_violation, foreign_key_violation, failed, plain_error, Answer, rows,
  error, with_uuid, without_uuid, with_new_uuid, accepted, one_row, affected, returning, to_ℕ,
}
use job_board.Store.Jobs.{has_id, page_rows, listed}

abbrev pub is_app : Text → Application → Bool
is_app id app = text_eq app.id id

abbrev bad_enum {ℓ} : {A : Type ℓ} → Answer A
bad_enum = error (failed (txt "invalid input value for enum"))

-- The rows after the columns of the row `uuid` are changed.
abbrev pub change_app : Text → (Application → Application) → List Application → List Application
change_app uuid change = map (λ app. if is_app uuid app then change app else app)

-- `ON DELETE CASCADE`
unfoldable pub delete_app : Text → Database → Database
delete_app uuid db = record db {
  applications = filter (λ app. not (is_app uuid app)) db.applications;
  notes = filter (λ note. not (text_eq note.application_id uuid)) db.notes;
}

module _ (pg : Postgres) where
  unfoldable pub insert_app :
      Time → Text → Text → Application → Database → Answer (Option (Application × Database))
  insert_app now uuid job_id app db =
      let new = record app { id = uuid; job_id = job_id; created_at = now; updated_at = now } in
      if not (is_valid_stage app.stage)
      then bad_enum
      else accepted (pg.refuses_application new) (
          if any (is_app uuid) db.applications
          then error unique_violation
          else if not (any (has_id job_id) db.jobs)
          then error foreign_key_violation
          else rows (
              some (
                record app { id = uuid; created_at = now; updated_at = now },
                record db { applications = new ∷ db.applications },
              )))

  -- `Create`, at the time NOW() and with the random uuid `fresh`.
  unfoldable pub create_row : Time → Text → Application → Database → Result Application × Database
  unfolding insert_app
  create_row now fresh app db =
      let stage = if text_eq app.stage (txt "") then stage_applied else app.stage in
      returning (txt "failed to create application")
        (with_new_uuid pg fresh app.id (λ uuid.
          with_uuid pg app.job_id
            (λ job_id. insert_app now uuid job_id (record app { stage = stage }) db)))
        db

  -- `GetByID`
  unfoldable pub get_by_id : Text → Database → Result (Option Application)
  get_by_id id db =
      one_row (txt "failed to get application by id")
        (with_uuid pg id (λ uuid. rows (find (is_app uuid) db.applications)))

  -- The WHERE clause of `List`, `job_id` being the filter's as a uuid.
  unfoldable pub matches_filter : Option Text → ApplicationListFilter → Application → Bool
  matches_filter job_id f app =
      (elim job_id [ none ↦ true | some id ↦ text_eq app.job_id id ])
      && ((text_eq f.stage (txt "") || text_eq app.stage f.stage)
          && (text_eq f.candidate_email (txt "")
              || pg.ilike app.candidate_email (txt "%" ++ (f.candidate_email ++ txt "%"))))

  -- The two statements of `List`, as far as their parameters can be read.
  unfoldable pub select_apps :
      ApplicationListFilter → Option Text → Database → Result (List Application × ℕ)
  unfolding matches_filter page_rows
  select_apps f job_id db =
      let found = filter (matches_filter job_id f) db.applications in
      if text_eq f.stage (txt "") || is_valid_stage f.stage
      then listed (txt "failed to query applications list") (length found) (
          page_rows (to_ℕ (page_of f.page)) (to_ℕ (limit_of f.limit)) (pg.order_applications found))
      else err (
          plain_error (txt "failed to count applications")
            (failed (txt "invalid input value for enum")))

  abbrev selected :
      ApplicationListFilter → Database → Answer (Option Text) → Result (List Application × ℕ)
  selected f db (rows job_id) = select_apps f job_id db
  selected f db (error e) = err (plain_error (txt "failed to count applications") e)

  -- `List`
  unfoldable pub list_rows : ApplicationListFilter → Database → Result (List Application × ℕ)
  unfolding select_apps
  list_rows f db = selected f db (
      if text_eq f.job_id (txt "")
      then without_uuid pg (rows none)
      else with_uuid pg f.job_id (λ uuid. rows (some uuid)))

  abbrev pub update_found :
      Time
      → Text
      → Application
      → Database
      → Option Application
      → Answer (Option (Application × Database))
  update_found now uuid app db none = rows none
  update_found now uuid app db (some old) =
      let new = record app {
        id = old.id;
        job_id = old.job_id;
        created_at = old.created_at;
        updated_at = now;
      } in
      accepted (pg.refuses_application new) (
        rows (
          some (
            record app { updated_at = now },
            record db { applications = change_app uuid (λ _. new) db.applications },
          )))

  -- `Update`
  unfoldable pub update_row : Time → Application → Database → Result Application × Database
  update_row now app db =
      returning (txt "failed to update application")
        (with_uuid pg app.id (λ uuid.
          if is_valid_stage app.stage
          then update_found now uuid app db (find (is_app uuid) db.applications)
          else bad_enum))
        db

  -- `UpdateStage`
  unfoldable pub update_stage_row :
      Time → Text → ApplicationStage → Option Text → Database → Result (Unit {0}) × Database
  update_stage_row now id stage reason db =
      affected (txt "failed to update application stage")
        (with_uuid pg id (λ uuid.
          if not (is_valid_stage stage)
          then bad_enum
          else if any (is_app uuid) db.applications
          then accepted (pg.refuses_stage stage reason) (
              rows (
                true,
                record db {
                  applications =
                      change_app uuid
                        (λ app. record app {
                          stage = stage;
                          rejected_reason = reason;
                          updated_at = now;
                        })
                        db.applications;
                },
              ))
          else rows (false, db)))
        db

  -- `Delete`
  unfoldable pub delete_row : Text → Database → Result (Unit {0}) × Database
  unfolding delete_app
  delete_row id db =
      affected (txt "failed to delete application")
        (with_uuid pg id (λ uuid.
          rows (
            if any (is_app uuid) db.applications then (true, delete_app uuid db) else (false, db))))
        db

  -- The repository that `NewApplicationRepository` makes.
  unfoldable pub application_repository : Time → Text → ApplicationRepository Database
  unfolding create_row get_by_id list_rows update_stage_row
  application_repository now fresh = record {
    create = create_row now fresh;
    get_by_id = get_by_id;
    list = list_rows;
    update_stage = update_stage_row now;
  }
