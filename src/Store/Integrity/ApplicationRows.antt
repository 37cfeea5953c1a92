-- ===== src/Store/Integrity/ApplicationRows.antt =====
-- The statements on the applications keep the database consistent.
use job_board.Prelude.{
  ◌≡◌, refl, sym, ◌∙◌, Bool, true, false, not, List, ◌∷◌, Option, none, some, if◌then◌else◌, any,
  filter, find, map, arith, inl, inr, Bool-cases,
}
use job_board.Domain.Types.{Application, ApplicationNote, ApplicationStage, stage_applied, Time}
use job_board.Domain.Formats.{is_valid_stage}
use job_board.Text.{Text, txt, text_eq}
use job_board.Text.Equality.{text_eq_sound}
use job_board.Store.Database.{Database, Postgres, Answer, rows, accepted}
use job_board.Store.Jobs.{has_id}
use job_board.Store.Applications.{
  is_app, change_app, delete_app, insert_app, create_row, update_found, update_row,
  update_stage_row, delete_row,
}
use job_board.Store.Integrity.Tables.{
  Unique-filter, Unique-map, All-filter, All-filter_of, All-map_of, All-weaken, any-map_key,
  any-filter_ne, find-some, find-All,
}
use job_board.Store.Integrity.Answers.{
  Answered, AtRow, AtState, Answered-if, Answered-accepted, Answered-with_uuid,
  Answered-with_new_uuid, AtState-returning, AtState-affected, AtState-if,
}
use job_board.Store.Integrity.Rules.{AppFits, AppsFit, NoteFits, NotesFit, IsConsistent}

-- References to the applications hold as long as no id goes.
NotesFit-apps :
    (apps more : List Application) (notes : List ApplicationNote)
    → ((id : Text) → any (is_app id) apps ≡ true → any (is_app id) more ≡ true)
    → NotesFit apps notes
    → NotesFit more notes
NotesFit-apps apps more notes f h = record {
  ids = h.ids;
  rows_fit =
      All-weaken (NoteFits apps) (NoteFits more) notes (λ note e. f note.application_id e)
        h.rows_fit;
}

apps-IsConsistent :
    (db : Database) (apps : List Application)
    → IsConsistent db
    → AppsFit db.jobs apps
    → ((id : Text) → any (is_app id) db.applications ≡ true → any (is_app id) apps ≡ true)
    → IsConsistent (record db { applications = apps })
apps-IsConsistent db apps h fit f = record {
  jobs_fit = h.jobs_fit;
  apps_fit = fit;
  notes_fit = NotesFit-apps db.applications apps db.notes f h.notes_fit;
  key_ids = h.key_ids;
  key_hashes = h.key_hashes;
  subscription_ids = h.subscription_ids;
}

-- Columns change, but neither the id nor what the references and types ask for.
change_app-IsConsistent :
    (db : Database) (uuid : Text) (change : Application → Application)
    → IsConsistent db
    → ((app : Application) → text_eq app.id uuid ≡ true → (change app).id ≡ app.id)
    → ((app : Application) → AppFits db.jobs app → AppFits db.jobs (change app))
    → IsConsistent (record db { applications = change_app uuid change db.applications })
change_app-IsConsistent db uuid change h same fits =
    let one : Application → Application = λ app. if is_app uuid app then change app else app in
    let keeps : (app : Application) → (one app).id ≡ app.id = λ app.
      elim (Bool-cases (is_app uuid app)) [
        | inl here ↦ rw here (same app here)
        | inr there ↦ rw there refl
      ] in
    apps-IsConsistent db (map one db.applications) h
      record {
        ids = Unique-map (λ app. app.id) one db.applications keeps h.apps_fit.ids;
        rows_fit =
            All-map_of (AppFits db.jobs) (AppFits db.jobs) one db.applications
              (λ app was. elim (Bool-cases (is_app uuid app)) [
                | inl here ↦ rw here (fits app was)
                | inr there ↦ rw there was
              ])
              h.apps_fit.rows_fit;
      }
      (λ id e. any-map_key (λ app. app.id) one id db.applications keeps ∙ e)

delete_app-IsConsistent :
    (uuid : Text) (db : Database) → IsConsistent db → IsConsistent (delete_app uuid db)
unfolding delete_app
delete_app-IsConsistent uuid db h = record {
  jobs_fit = h.jobs_fit;
  apps_fit = record {
    ids =
        Unique-filter (λ app. app.id) (λ app. not (is_app uuid app)) db.applications h.apps_fit.ids;
    rows_fit =
        All-filter (AppFits db.jobs) (λ app. not (is_app uuid app)) db.applications
          h.apps_fit.rows_fit;
  };
  notes_fit = record {
    ids =
        Unique-filter (λ note. note.id) (λ note. not (text_eq note.application_id uuid)) db.notes
          h.notes_fit.ids;
    rows_fit =
        All-filter_of (NoteFits db.applications)
          (NoteFits (filter (λ app. not (is_app uuid app)) db.applications))
          (λ note. not (text_eq note.application_id uuid)) db.notes
          (λ note keep e.
            any-filter_ne (λ app. app.id) note.application_id uuid db.applications (ground arith)
            ∙ e)
          h.notes_fit.rows_fit;
  };
  key_ids = h.key_ids;
  key_hashes = h.key_hashes;
  subscription_ids = h.subscription_ids;
}

module _ (pg : Postgres) (db : Database) (h : IsConsistent db) where
  insert_app-IsConsistent :
      (now : Time) (uuid job_id : Text) (app : Application)
      → Answered (AtRow IsConsistent) (insert_app pg now uuid job_id app db)
  unfolding insert_app
  insert_app-IsConsistent now uuid job_id app =
      let new = record app { id = uuid; job_id = job_id; created_at = now; updated_at = now } in
      Answered-if (AtRow IsConsistent) _ _ _ (λ e. tt)
        (λ (fits : not (is_valid_stage app.stage) ≡ false).
          Answered-accepted (AtRow IsConsistent) (pg.refuses_application new) _ (
            Answered-if (AtRow IsConsistent) _ _ _ (λ e. tt)
              (λ (fresh : any (is_app uuid) db.applications ≡ false).
                Answered-if (AtRow IsConsistent) _ _ _ (λ e. tt)
                  (λ (there : not (any (has_id job_id) db.jobs) ≡ false).
                    apps-IsConsistent db (new ∷ db.applications) h
                      record {
                        ids = (fresh, h.apps_fit.ids);
                        rows_fit = ((ground arith, ground arith), h.apps_fit.rows_fit);
                      }
                      (λ id e. ground arith)))))

  pub create_row-IsConsistent :
      (now : Time) (fresh : Text) (app : Application)
      → AtState IsConsistent (create_row pg now fresh app db)
  unfolding create_row
  create_row-IsConsistent now fresh app = AtState-returning IsConsistent _ _ db h (
      Answered-with_new_uuid (AtRow IsConsistent) pg fresh app.id _ (λ uuid.
        Answered-with_uuid (AtRow IsConsistent) pg app.job_id _ (λ job_id.
          insert_app-IsConsistent now uuid job_id (record app {
            stage = if text_eq app.stage (txt "") then stage_applied else app.stage;
          }))))

  update_found-IsConsistent :
      (now : Time) (uuid : Text) (app : Application) (old : Option Application)
      → is_valid_stage app.stage ≡ true
      → find (is_app uuid) db.applications ≡ old
      → Answered (AtRow IsConsistent) (update_found pg now uuid app db old)
  update_found-IsConsistent now uuid app none fits found = tt
  update_found-IsConsistent now uuid app (some old) fits found =
      let new = record app {
        id = old.id;
        job_id = old.job_id;
        created_at = old.created_at;
        updated_at = now;
      } in
      let same : old.id ≡ uuid =
        text_eq_sound old.id uuid (find-some (is_app uuid) db.applications found) in
      let was =
        find-All (AppFits db.jobs) (is_app uuid) db.applications found h.apps_fit.rows_fit in
      Answered-accepted (AtRow IsConsistent) (pg.refuses_application new) _ (
        change_app-IsConsistent db uuid (λ _. new) h
          (λ row here. same ∙ sym (text_eq_sound row.id uuid here)) (λ row fit. (was.0, fits)))

  pub update_row-IsConsistent :
      (now : Time) (app : Application) → AtState IsConsistent (update_row pg now app db)
  unfolding update_row
  update_row-IsConsistent now app = AtState-returning IsConsistent _ _ db h (
      Answered-with_uuid (AtRow IsConsistent) pg app.id _ (λ uuid.
        Answered-if (AtRow IsConsistent) _ _ _
          (λ (fits : is_valid_stage app.stage ≡ true).
            update_found-IsConsistent now uuid app (find (is_app uuid) db.applications) fits refl)
          (λ e. tt)))

  pub update_stage_row-IsConsistent :
      (now : Time) (id : Text) (stage : ApplicationStage) (reason : Option Text)
      → AtState IsConsistent (update_stage_row pg now id stage reason db)
  unfolding update_stage_row
  update_stage_row-IsConsistent now id stage reason =
      let change : Application → Application =
        λ app. record app { stage = stage; rejected_reason = reason; updated_at = now } in
      AtState-affected IsConsistent _ _ db h (
        Answered-with_uuid (AtState {A = Bool} IsConsistent) pg id _ (λ uuid.
          let moved : Answer (Bool × Database) =
            rows (true, record db { applications = change_app uuid change db.applications }) in
          Answered-if (AtState {A = Bool} IsConsistent) _ _ _ (λ e. tt)
            (λ (fits : not (is_valid_stage stage) ≡ false).
              Answered-if (AtState {A = Bool} IsConsistent) (any (is_app uuid) db.applications)
                (accepted (pg.refuses_stage stage reason) moved) (rows (false, db))
                (λ there.
                  Answered-accepted (AtState {A = Bool} IsConsistent)
                    (pg.refuses_stage stage reason) moved
                    (change_app-IsConsistent db uuid change h (λ row here. refl)
                      (λ row (e, s). (e, ground arith))))
                (λ gone. h))))

  pub delete_row-IsConsistent : (id : Text) → AtState IsConsistent (delete_row pg id db)
  unfolding delete_row
  delete_row-IsConsistent id = AtState-affected IsConsistent _ _ db h (
      Answered-with_uuid (AtState IsConsistent) pg id _ (λ uuid.
        AtState-if IsConsistent (any (is_app uuid) db.applications) (true, delete_app uuid db)
          (false, db) (delete_app-IsConsistent uuid db h) h))
