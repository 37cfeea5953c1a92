-- ===== src/Tests/Store/Calls.antt =====
-- A sequence of calls, and an event for a stored subscription.
use job_board.Prelude.{◌≡◌, refl, true, false, List, [], ◌∷◌, ◌++◌, none, some, All, any, length}
use job_board.Text.{Text, txt, text_eq}
use job_board.Domain.Types.{
  Application, ApplicationNote, WebhookSubscription, Time, stage_applied, stage_screening,
  event_job_published,
}
use job_board.Domain.Values.{Value}
use job_board.Webhook.Dispatcher.{Config, Task, initial, dispatch}
use job_board.Store.Database.{Database, Postgres}
use job_board.Store.Calls.{
  Call, create_job, create_application, update_stage, create_note, delete_job, perform_all,
}
use job_board.Store.Subscriptions.{list_active_by_event}
use job_board.Store.Subscriptions.Dispatched.{subscribed, dispatch-Subscribed}
use job_board.Store.Integrity.Rules.{IsConsistent}
use job_board.Store.Integrity.Reachable.{perform_all-IsConsistent}
use job_board.Tests.Store.{pg, empty, job, job_id}

abbrev blank : Value → Text
blank v = []

abbrev application : Application
application = record {
  id = txt "app-1";
  job_id = job_id;
  candidate_name = txt "Ada";
  candidate_email = txt "ada@example.com";
  candidate_phone = none;
  linkedin_url = none;
  resume_s3_key = txt "key";
  resume_filename = txt "cv.pdf";
  custom_answers = [];
  stage = stage_applied;
  rejected_reason = none;
  created_at = 0;
  updated_at = 0;
}

abbrev note : ApplicationNote
note = record {
  id = txt "note-1";
  application_id = txt "app-1";
  author_name = txt "Bob";
  note_text = txt "Good";
  created_at = 0;
}

-- A job with an application and a note.
abbrev filling : List (Postgres × (Time × Call))
filling =
    (pg, (1, create_job (txt "x") job))
    ∷ (pg, (2, create_application (txt "x") application))
    ∷ (pg, (3, create_note (txt "x") note))
    ∷ (pg, (4, update_stage (txt "app-1") stage_screening none))
    ∷ []

-- The note goes with the job.
note_is_kept : length (perform_all blank filling empty).notes ≡ 1
unfolding perform_all job_board.Store.Applications.update_stage_row
    job_board.Domain.Formats.is_valid_stage text_eq txt job_board.Store.Notes.create_row
    job_board.Store.Applications.create_row job_board.Store.Jobs.create_row
    job_board.Domain.Formats.is_valid_job_status job_board.Domain.Formats.is_valid_employment_type
note_is_kept = refl

note_goes :
    (perform_all blank ((pg, (5, delete_job job_id)) ∷ []) (perform_all blank filling empty)).notes
    ≡ []
unfolding perform_all job_board.Store.Jobs.delete_row job_board.Store.Applications.update_stage_row
    job_board.Domain.Formats.is_valid_stage text_eq txt job_board.Store.Notes.create_row
    job_board.Store.Applications.create_row job_board.Store.Jobs.create_row
    job_board.Domain.Formats.is_valid_job_status job_board.Domain.Formats.is_valid_employment_type
note_goes = refl

empty-IsConsistent : IsConsistent empty
empty-IsConsistent = record {
  jobs_fit = record { ids = tt; slugs = tt; enums = tt };
  apps_fit = record { ids = tt; rows_fit = tt };
  notes_fit = record { ids = tt; rows_fit = tt };
  key_ids = tt;
  key_hashes = tt;
  subscription_ids = tt;
}

perform_all-IsConsistent_example : IsConsistent (perform_all blank filling empty)
perform_all-IsConsistent_example = perform_all-IsConsistent blank filling empty empty-IsConsistent

abbrev hook : WebhookSubscription
hook = record {
  id = txt "sub-1";
  target_url = txt "https://example.com/hook";
  secret_token = txt "s";
  events = txt "*" ∷ [];
  is_active = true;
  created_at = 0;
  updated_at = 0;
}

abbrev hooked : Database
hooked = record empty {
  subscriptions = hook ∷ record hook { id = txt "sub-2"; is_active = false } ∷ [];
}

abbrev cfg : Config
cfg = record { retry_delays = 30 ∷ []; queue_capacity = 2; max_consecutive_failures = 3 }

one_is_told :
    length
      (dispatch cfg
        (list_active_by_event blank pg event_job_published hooked)
        (some (txt "{}"))
        initial).1.queue
    ≡ 1
unfolding dispatch list_active_by_event text_eq txt job_board.Store.TextArray.scan
    job_board.Text.trim_space job_board.Store.TextArray.value job_board.Text.has_prefix
one_is_told = refl

dispatch-Subscribed_example :
    (new : List Task) × ((dispatch cfg
        (list_active_by_event blank pg event_job_published hooked)
        (some (txt "{}"))
        initial).1.queue
      ≡ [] ++ new)
    × All
        (λ task.
          any (subscribed event_job_published task.subscription.id) hooked.subscriptions ≡ true)
        new
dispatch-Subscribed_example =
    dispatch-Subscribed blank pg event_job_published cfg hooked (some (txt "{}")) initial
      (λ q xs. refl)
