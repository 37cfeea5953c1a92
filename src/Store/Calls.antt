-- ===== src/Store/Calls.antt =====
-- The calls of the repositories that write, as any sequence of requests makes them.
use job_board.Prelude.{List, [], ◌∷◌, Option}
use job_board.Text.{Text}
use job_board.Domain.Types.{
  Job, Application, ApplicationNote, ApiKey, WebhookSubscription, ApplicationStage, Time,
}
use job_board.Domain.Values.{Value}
use job_board.Store.Database.{Database, Postgres}
use job_board.Store.Jobs
use job_board.Store.Applications
use job_board.Store.Applications.{update_stage_row}
use job_board.Store.Notes
use job_board.Store.Keys
use job_board.Store.Keys.{update_last_used}
use job_board.Store.Subscriptions

-- A call, with the random uuid of an INSERT.
pub data Call : Type 0 where
  create_job : Text → Job → Call
  update_job : Job → Call
  delete_job : Text → Call
  create_application : Text → Application → Call
  update_application : Application → Call
  update_stage : Text → ApplicationStage → Option Text → Call
  delete_application : Text → Call
  create_note : Text → ApplicationNote → Call
  delete_note : Text → Call
  create_key : Text → ApiKey → Call
  use_key : Text → Time → Call
  delete_key : Text → Call
  create_subscription : Text → WebhookSubscription → Call
  update_subscription : WebhookSubscription → Call
  delete_subscription : Text → Call

module _ (sprint : Value → Text) where
  -- The database after a call, at the time `now` and with what PostgreSQL does during it.
  unfoldable pub perform : Postgres → Time → Call → Database → Database
  perform pg now (create_job fresh job) db = (Jobs.create_row pg now fresh job db).1
  perform pg now (update_job job) db = (Jobs.update_row pg now job db).1
  perform pg now (delete_job id) db = (Jobs.delete_row pg id db).1
  perform pg now (create_application fresh app) db = (Applications.create_row pg now fresh app db).1
  perform pg now (update_application app) db = (Applications.update_row pg now app db).1
  perform pg now (update_stage id stage reason) db = (update_stage_row pg now id stage reason db).1
  perform pg now (delete_application id) db = (Applications.delete_row pg id db).1
  perform pg now (create_note fresh note) db = (Notes.create_row pg now fresh note db).1
  perform pg now (delete_note id) db = (Notes.delete_row pg id db).1
  perform pg now (create_key fresh key) db = (Keys.create_row pg now fresh key db).1
  perform pg now (use_key id t) db = (update_last_used pg id t db).1
  perform pg now (delete_key id) db = (Keys.delete_row pg id db).1
  perform pg now (create_subscription fresh sub) db =
      (Subscriptions.create_row sprint pg now fresh sub db).1
  perform pg now (update_subscription sub) db = (Subscriptions.update_row sprint pg now sub db).1
  perform pg now (delete_subscription id) db = (Subscriptions.delete_row sprint pg id db).1

  -- One call after the other.
  unfoldable pub perform_all : List (Postgres × (Time × Call)) → Database → Database
  unfolding perform
  perform_all [] db = db
  perform_all ((pg, (now, call)) ∷ calls) db = perform_all calls (perform pg now call db)
