-- ===== src/Service/World.antt =====
-- What a service works on: a repository state of any type `S`, and the webhook events dispatched
-- so far, the latest first. The repositories are the interfaces of internal/domain.
use job_board.Prelude.{ℕ, ◌≡◌, Bool, true, false, List, ◌∷◌, Option, if◌then◌else◌}
use job_board.Text.{Text}
use job_board.Domain.Types.{
  Job, JobListFilter, Application, ApplicationListFilter, ApplicationNote, ApplicationStage,
  WebhookSubscription, Result,
}
use job_board.Domain.Values.{Value}

-- The data of the events that the services dispatch.
pub data EventData : Type 0 where
  of_job : Job → EventData
  application_created :
      (application_id job_id job_title job_slug candidate_name candidate_email : Text)
      → ApplicationStage
      → List (Text × Value)
      → EventData
  stage_updated :
      (application_id job_id : Text) (old_stage new_stage : ApplicationStage) (notes_count : ℕ)
      → EventData
  rejected : (application_id : Text) (rejected_reason : Option Text) → EventData

pub record Event : Type 0 where
  pub topic : Text
  pub payload : EventData

pub record World (S : Type 0) : Type 0 where
  pub store : S
  pub events : List Event

-- `_ = s.webhookService.DispatchEvent(…)`, which does nothing without a webhook service; its error
-- is dropped.
abbrev pub emit : {S : Type 0} → Bool → Text → EventData → World S → World S
emit webhooks topic payload w =
    if webhooks
    then record w { events = record { topic = topic; payload = payload } ∷ w.events }
    else w

-- How the log of events changes: as `Change` says, where there is a webhook service, and not at all
-- where there is none.
pub data Told (webhooks : Bool) (Change : List Event → List Event → Type 0)
    (before after : List Event) : Type 0 where
  told : webhooks ≡ true → Change before after → Told webhooks Change before after
  untold : webhooks ≡ false → after ≡ before → Told webhooks Change before after

-- `domain.JobRepository`, as far as the services call it. A pointer may be nil. `create` and
-- `update` return the job with the columns that the database filled in.
pub record JobRepository (S : Type 0) : Type 0 where
  pub create : Job → S → Result Job × S
  pub get_by_id : Text → S → Result (Option Job)
  pub get_by_id_or_slug : Text → S → Result (Option Job)
  pub list : JobListFilter → S → Result (List Job × ℕ)
  pub list_departments : S → Result (List Text)
  pub update : Job → S → Result Job × S
  pub delete : Text → S → Result (Unit {0}) × S

-- `domain.ApplicationRepository` and `domain.ApplicationNoteRepository`, likewise.
pub record ApplicationRepository (S : Type 0) : Type 0 where
  pub create : Application → S → Result Application × S
  pub get_by_id : Text → S → Result (Option Application)
  pub list : ApplicationListFilter → S → Result (List Application × ℕ)
  pub update_stage : Text → ApplicationStage → Option Text → S → Result (Unit {0}) × S

pub record NoteRepository (S : Type 0) : Type 0 where
  pub create : ApplicationNote → S → Result ApplicationNote × S
  pub list_by_application_id : Text → S → Result (List ApplicationNote)

-- `domain.WebhookSubscriptionRepository`, likewise.
pub record SubscriptionRepository (S : Type 0) : Type 0 where
  pub create : WebhookSubscription → S → Result WebhookSubscription × S
  pub get_by_id : Text → S → Result (Option WebhookSubscription)
  pub list : S → Result (List WebhookSubscription)
  pub delete : Text → S → Result (Unit {0}) × S
