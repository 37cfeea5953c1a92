-- ===== src/Store/Integrity/Reachable.antt =====
-- Every state that calls of the repositories reach is consistent.
use job_board.Prelude.{List, [], ◌∷◌}
use job_board.Text.{Text}
use job_board.Domain.Types.{Time}
use job_board.Domain.Values.{Value}
use job_board.Store.Database.{Database, Postgres}
use job_board.Store.Calls.{
  Call, create_job, update_job, delete_job, create_application, update_application, update_stage,
  delete_application, create_note, delete_note, create_key, use_key, delete_key,
  create_subscription, update_subscription, delete_subscription, perform, perform_all,
}
use job_board.Store.Integrity.Rules.{IsConsistent}
use job_board.Store.Integrity.JobRows
use job_board.Store.Integrity.ApplicationRows
use job_board.Store.Integrity.NoteRows
use job_board.Store.Integrity.KeyRows
use job_board.Store.Integrity.SubscriptionRows

module _ (sprint : Value → Text) where
  perform-IsConsistent :
      (pg : Postgres) (now : Time) (call : Call) (db : Database)
      → IsConsistent db
      → IsConsistent (perform sprint pg now call db)
  unfolding perform
  perform-IsConsistent pg now (create_job fresh job) db h =
      JobRows.create_row-IsConsistent pg db h now fresh job
  perform-IsConsistent pg now (update_job job) db h =
      JobRows.update_row-IsConsistent pg db h now job
  perform-IsConsistent pg now (delete_job id) db h = JobRows.delete_row-IsConsistent pg db h id
  perform-IsConsistent pg now (create_application fresh app) db h =
      ApplicationRows.create_row-IsConsistent pg db h now fresh app
  perform-IsConsistent pg now (update_application app) db h =
      ApplicationRows.update_row-IsConsistent pg db h now app
  perform-IsConsistent pg now (update_stage id stage reason) db h =
      ApplicationRows.update_stage_row-IsConsistent pg db h now id stage reason
  perform-IsConsistent pg now (delete_application id) db h =
      ApplicationRows.delete_row-IsConsistent pg db h id
  perform-IsConsistent pg now (create_note fresh note) db h =
      NoteRows.create_note-IsConsistent pg db h now fresh note
  perform-IsConsistent pg now (delete_note id) db h = NoteRows.delete_note-IsConsistent pg db h id
  perform-IsConsistent pg now (create_key fresh key) db h =
      KeyRows.create_key-IsConsistent pg db h now fresh key
  perform-IsConsistent pg now (use_key id t) db h =
      KeyRows.update_last_used-IsConsistent pg db h id t
  perform-IsConsistent pg now (delete_key id) db h = KeyRows.delete_key-IsConsistent pg db h id
  perform-IsConsistent pg now (create_subscription fresh sub) db h =
      SubscriptionRows.create_subscription-IsConsistent pg db h sprint now fresh sub
  perform-IsConsistent pg now (update_subscription sub) db h =
      SubscriptionRows.update_subscription-IsConsistent pg db h sprint now sub
  perform-IsConsistent pg now (delete_subscription id) db h =
      SubscriptionRows.delete_subscription-IsConsistent pg db h sprint id

  -- Whatever the repositories are asked for, in whatever order, and whatever PostgreSQL answers: from
  -- a consistent database they reach a consistent one. No two rows of a table have the same id, no two
  -- jobs the same slug, no two keys the same hash; the enumerations of the jobs and applications are
  -- among their values; every application is of a job that there is, and every note of an application
  -- that there is.
  pub perform_all-IsConsistent :
      (calls : List (Postgres × (Time × Call))) (db : Database)
      → IsConsistent db
      → IsConsistent (perform_all sprint calls db)
  unfolding perform_all
  perform_all-IsConsistent [] db h = h
  perform_all-IsConsistent ((pg, (now, call)) ∷ calls) db h =
      perform_all-IsConsistent calls (perform sprint pg now call db)
        (perform-IsConsistent pg now call db h)
