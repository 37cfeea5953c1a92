-- ===== src/Store/Notes.antt =====
-- internal/store/postgres/application_note_repo.go
use job_board.Prelude.{Bool, not, List, ◌∷◌, Option, some, if◌then◌else◌, any, filter, find}
use job_board.Text.{Text, txt, text_eq}
use job_board.Domain.Types.{ApplicationNote, Time, Result, ok, err}
use job_board.Service.World.{NoteRepository}
use job_board.Store.Database.{
  Database, Postgres, unique_violation, foreign_key_violation, plain_error, Answer, rows, error,
  with_uuid, with_new_uuid, accepted, one_row, affected, returning,
}
use job_board.Store.Applications.{is_app}

abbrev pub is_note : Text → ApplicationNote → Bool
is_note id note = text_eq note.id id

module _ (pg : Postgres) where
  unfoldable pub insert_note :
      Time → Text → Text → ApplicationNote → Database → Answer (Option (ApplicationNote × Database))
  insert_note now uuid app_id note db =
      let new = record note { id = uuid; application_id = app_id; created_at = now } in
      accepted (pg.refuses_note new) (
        if any (is_note uuid) db.notes
        then error unique_violation
        else if not (any (is_app app_id) db.applications)
        then error foreign_key_violation
        else rows (
            some
              (record note { id = uuid; created_at = now }, record db { notes = new ∷ db.notes })))

  -- `Create`, at the time NOW() and with the random uuid `fresh`.
  unfoldable pub create_row :
      Time → Text → ApplicationNote → Database → Result ApplicationNote × Database
  unfolding insert_note
  create_row now fresh note db =
      returning (txt "failed to create application note")
        (with_new_uuid pg fresh note.id (λ uuid.
          with_uuid pg note.application_id (λ app_id. insert_note now uuid app_id note db)))
        db

  -- `GetByID`
  unfoldable pub get_by_id : Text → Database → Result (Option ApplicationNote)
  get_by_id id db =
      one_row (txt "failed to get application note by id")
        (with_uuid pg id (λ uuid. rows (find (is_note uuid) db.notes)))

  abbrev notes_listed : Answer (List ApplicationNote) → Result (List ApplicationNote)
  notes_listed (rows xs) = ok xs
  notes_listed (error e) = err (plain_error (txt "failed to list application notes") e)

  -- `ListByApplicationID`
  unfoldable pub list_by_application_id : Text → Database → Result (List ApplicationNote)
  list_by_application_id app_id db = notes_listed (
      with_uuid pg app_id (λ uuid.
        rows (pg.order_notes (filter (λ note. text_eq note.application_id uuid) db.notes))))

  -- `Delete`
  unfoldable pub delete_row : Text → Database → Result (Unit {0}) × Database
  delete_row id db =
      affected (txt "failed to delete application note")
        (with_uuid pg id (λ uuid. rows (
          any (is_note uuid) db.notes,
          record db { notes = filter (λ note. not (is_note uuid note)) db.notes },
        )))
        db

  -- The repository that `NewApplicationNoteRepository` makes.
  unfoldable pub note_repository : Time → Text → NoteRepository Database
  unfolding create_row list_by_application_id
  note_repository now fresh = record {
    create = create_row now fresh;
    list_by_application_id = list_by_application_id;
  }
