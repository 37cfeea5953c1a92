-- ===== src/Service/Pipeline/Notes.antt =====
-- What a call of CreateNote leads to.
use job_board.Prelude.{◌≡◌, refl, ◌≢◌, ◌≤◌, not, Option, inl, inr, Bool-cases, is_empty, []}
use job_board.Text.{Text, len, trim_space}
use job_board.Domain.Types.{Result, ok, err, Application, ApplicationNote}
use job_board.Domain.Requests.{validate_note_input}
use job_board.Domain.Requests.Acceptance.{validate_note_input-eq-nil}
use job_board.Service.World.{ApplicationRepository, NoteRepository}
use job_board.Service.Pipeline.{create_note, noted}
use job_board.Service.Jobs.Created.{is_empty_sound}

module _ {S : Type 0} (apps : ApplicationRepository S) (notes : NoteRepository S) where
  -- Everything that a call of CreateNote that succeeds has found and done.
  pub record IsNoted (id app_id author text : Text) (s : S) (note : ApplicationNote) (t : S)
      : Type 0 where
    pub application : Option Application
    pub found : apps.get_by_id app_id s ≡ ok application
    pub author_given : (trim_space author ≢ []) × (len (trim_space author) ≤ 255)
    pub text_given : trim_space text ≢ []
    pub stored :
        notes.create
          (record {
            id = id;
            application_id = app_id;
            author_name = trim_space author;
            note_text = trim_space text;
            created_at = 0;
          })
          s
        ≡ (ok note, t)

  noted-IsNoted :
      (id app_id author text : Text) (s t : S) (note : ApplicationNote)
      (found : Result (Option Application))
      → apps.get_by_id app_id s ≡ found
      → noted apps notes id app_id author text found s ≡ (ok note, t)
      → IsNoted id app_id author text s note t
  noted-IsNoted id app_id author text s t note (err x) f e = cc
  noted-IsNoted id app_id author text s t note (ok application) f e =
      elim (Bool-cases (not (is_empty (validate_note_input author text)))) [
        | inl refused ↦ cc (rw refused at e)
        | inr passed ↦
            let valid = (validate_note_input-eq-nil author text).0 (is_empty_sound _ passed) in
            record {
              application = application;
              found = f;
              author_given = valid.0;
              text_given = valid.1;
              stored = rw passed at e;
            }
      ]

  -- A call of CreateNote that succeeds looked the application up, had an author of 1 to 255 bytes and
  -- a text that is not blank, and stored the note with both trimmed.
  pub create_note-IsNoted :
      (id app_id author text : Text) (s t : S) (note : ApplicationNote)
      → create_note apps notes id app_id author text s ≡ (ok note, t)
      → IsNoted id app_id author text s note t
  unfolding create_note
  create_note-IsNoted id app_id author text s t note e =
      noted-IsNoted id app_id author text s t note (apps.get_by_id app_id s) refl e
