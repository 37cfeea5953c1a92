-- ===== src/Store/Integrity/NoteRows.antt =====
-- The statements on the notes keep the database consistent.
use job_board.Prelude.{◌≡◌, Bool, false, not, List, ◌∷◌, any, filter, arith}
use job_board.Domain.Types.{ApplicationNote, Time}
use job_board.Text.{Text}
use job_board.Store.Database.{Database, Postgres}
use job_board.Store.Applications.{is_app}
use job_board.Store.Notes
use job_board.Store.Notes.{is_note, insert_note}
use job_board.Store.Integrity.Tables.{Unique-filter, All-filter}
use job_board.Store.Integrity.Answers.{
  Answered, AtRow, AtState, Answered-if, Answered-accepted, Answered-with_uuid,
  Answered-with_new_uuid, AtState-returning, AtState-affected,
}
use job_board.Store.Integrity.Rules.{NoteFits, NotesFit, IsConsistent}

notes-IsConsistent :
    (db : Database) (notes : List ApplicationNote)
    → IsConsistent db
    → NotesFit db.applications notes
    → IsConsistent (record db { notes = notes })
notes-IsConsistent db notes h fit = record {
  jobs_fit = h.jobs_fit;
  apps_fit = h.apps_fit;
  notes_fit = fit;
  key_ids = h.key_ids;
  key_hashes = h.key_hashes;
  subscription_ids = h.subscription_ids;
}

module _ (pg : Postgres) (db : Database) (h : IsConsistent db) where
  insert_note-IsConsistent :
      (now : Time) (uuid app_id : Text) (note : ApplicationNote)
      → Answered (AtRow IsConsistent) (insert_note pg now uuid app_id note db)
  unfolding insert_note
  insert_note-IsConsistent now uuid app_id note =
      let new = record note { id = uuid; application_id = app_id; created_at = now } in
      Answered-accepted (AtRow IsConsistent) (pg.refuses_note new) _ (
        Answered-if (AtRow IsConsistent) _ _ _ (λ e. tt)
          (λ (fresh : any (is_note uuid) db.notes ≡ false).
            Answered-if (AtRow IsConsistent) _ _ _ (λ e. tt)
              (λ (there : not (any (is_app app_id) db.applications) ≡ false).
                notes-IsConsistent db (new ∷ db.notes) h record {
                  ids = (fresh, h.notes_fit.ids);
                  rows_fit = (ground arith, h.notes_fit.rows_fit);
                })))

  pub create_note-IsConsistent :
      (now : Time) (fresh : Text) (note : ApplicationNote)
      → AtState IsConsistent (Notes.create_row pg now fresh note db)
  unfolding Notes.create_row
  create_note-IsConsistent now fresh note = AtState-returning IsConsistent _ _ db h (
      Answered-with_new_uuid (AtRow IsConsistent) pg fresh note.id _ (λ uuid.
        Answered-with_uuid (AtRow IsConsistent) pg note.application_id _
          (λ app_id. insert_note-IsConsistent now uuid app_id note)))

  pub delete_note-IsConsistent : (id : Text) → AtState IsConsistent (Notes.delete_row pg id db)
  unfolding Notes.delete_row
  delete_note-IsConsistent id = AtState-affected IsConsistent _ _ db h (
      Answered-with_uuid (AtState {A = Bool} IsConsistent) pg id _ (λ uuid.
        notes-IsConsistent db (filter (λ note. not (is_note uuid note)) db.notes) h record {
          ids =
              Unique-filter (λ note. note.id) (λ note. not (is_note uuid note)) db.notes
                h.notes_fit.ids;
          rows_fit =
              All-filter (NoteFits db.applications) (λ note. not (is_note uuid note)) db.notes
                h.notes_fit.rows_fit;
        }))
