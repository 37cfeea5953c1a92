-- ===== src/Service/Applications/Apply.antt =====
-- What a call of Apply leads to.
pub mod Cleanup
use job_board.Prelude.{
  ℕ, ◌≡◌, refl, ◌≢◌, sym, ap, Bool, true, false, not, ◌&&◌, List, [], ◌∷◌, ◌++◌, Option, none, some,
  inl, inr, Bool-cases, Option-cases, is_empty, if◌then◌else◌, All, append-eq-nil_iff,
}
use job_board.Prelude.Int.{ℤ}
use job_board.Text.{Text, txt, text_eq}
use job_board.Text.Equality.{text_eq_sound}
use job_board.Domain.Types.{
  DomainError, Result, ok, err, Job, status_published, Application, event_application_created,
}
use job_board.Domain.Values.{Platform}
use job_board.Domain.Candidate.{validate_candidate_input}
use job_board.Domain.Answers.{
  AnswerIsValid, validate_custom_answers, validate_custom_answers-eq-nil,
}
use job_board.Storage.Resume.{Reader, ValidationResult, validate_resume}
use job_board.Storage.Resume.Accepted.{IsAccepted, validate_resume-IsAccepted}
use job_board.Service.World.{
  World, Event, application_created, JobRepository, ApplicationRepository,
}
use job_board.Service.Applications.{
  ApplyInput, Storage, check_resume, apply_details, new_application, upload_to, persisted, uploaded,
  submit, apply_to, apply,
}
use job_board.Service.Jobs.Created.{is_empty_sound}

-- The event that a new application is announced with.
abbrev pub received : Bool → Job → Application → List Event → List Event
received webhooks job app events =
    if webhooks
    then record {
      topic = event_application_created;
      payload =
          application_created app.id job.id job.title job.slug app.candidate_name
            app.candidate_email app.stage app.custom_answers;
    }
      ∷ events
    else events

published_sound :
    (job : Job) → not (text_eq job.status status_published) ≡ false → job.status ≡ status_published
published_sound job e = elim (Bool-cases (text_eq job.status status_published)) [
  | inl same ↦ text_eq_sound job.status status_published same
  | inr other ↦ cc (rw other at e)
]

module _ (P : Platform) {S : Type 0} (jobs : JobRepository S) (apps : ApplicationRepository S)
    (storage : Option (Storage S)) (webhooks : Bool) where
  -- Everything that a call of Apply that succeeds has found and done.
  pub record IsSubmitted (id : Text) (input : ApplyInput) (w : World S) (app : Application)
      (w' : World S) : Type 0 where
    pub job : Job
    pub found : jobs.get_by_id_or_slug input.job_id_or_slug w.store ≡ ok (some job)
    pub published : job.status ≡ status_published
    pub candidate :
        validate_candidate_input P input.candidate_name input.candidate_email input.candidate_phone
          input.linkedin_url
        ≡ []
    pub answers : All (AnswerIsValid P input.custom_answers) job.custom_fields
    pub reader : Reader
    pub given : input.resume_reader ≡ some reader
    pub resume : ValidationResult
    pub accepted : IsAccepted P.lower_rune input.resume_filename input.resume_size reader resume
    pub between : S
    pub stored_resume :
        upload_to storage (new_application P id job input resume).resume_s3_key resume w.store
        ≡ (ok tt, between)
    pub created : apps.create (new_application P id job input resume) between ≡ (ok app, w'.store)
    pub events : w'.events ≡ received webhooks job app w.events

  details-nil :
      (job : Job) (input : ApplyInput)
      → apply_details P job input ≡ []
      → (validate_candidate_input P input.candidate_name input.candidate_email input.candidate_phone
            input.linkedin_url
          ≡ [])
        × (validate_custom_answers P job.custom_fields input.custom_answers ≡ [])
  unfolding apply_details
  details-nil job input e =
      let parts = (append-eq-nil_iff _ _).0 e in (parts.0, ((append-eq-nil_iff _ _).0 (parts.1)).0)

  persisted-ok :
      (job : Job) (key : Text) (created : Result Application × S) (w w' : World S)
      (app : Application)
      → persisted P jobs apps storage webhooks job key created w ≡ (ok app, w')
      → (created ≡ (ok app, w'.store)) × (w'.events ≡ received webhooks job app w.events)
  persisted-ok job key (err x, s) w w' app e = cc
  persisted-ok job key (ok a, s) w w' app e =
      let same : a ≡ app = cc e in
      elim (Bool-cases webhooks) [
        | inl on ↦ (cc e, rw (← same, on) (sym (ap (λ p. (p.1).events) (rw on at e))))
        | inr off ↦ (cc e, rw (← same, off) (sym (ap (λ p. (p.1).events) (rw off at e))))
      ]

  -- What follows a resume that is accepted.
  record IsStored (id : Text) (job : Job) (input : ApplyInput) (resume : ValidationResult)
      (w : World S) (app : Application) (w' : World S) : Type 0 where
    pub between : S
    pub stored_resume :
        upload_to storage (new_application P id job input resume).resume_s3_key resume w.store
        ≡ (ok tt, between)
    pub created : apps.create (new_application P id job input resume) between ≡ (ok app, w'.store)
    pub events : w'.events ≡ received webhooks job app w.events

  uploaded-IsStored :
      (id : Text) (job : Job) (input : ApplyInput) (resume : ValidationResult)
      (stored : Result (Unit {0}) × S) (w w' : World S) (app : Application)
      → upload_to storage (new_application P id job input resume).resume_s3_key resume w.store
        ≡ stored
      → uploaded P jobs apps storage webhooks job (new_application P id job input resume) stored w
        ≡ (ok app, w')
      → IsStored id job input resume w app w'
  uploaded-IsStored id job input resume (err x, s) w w' app u e = cc
  uploaded-IsStored id job input resume (ok tt, s) w w' app u e =
      let done =
        persisted-ok job (new_application P id job input resume).resume_s3_key _ w w' app e in
      record { between = s; stored_resume = u; created = done.0; events = done.1 }

  submit-IsStored :
      (id : Text) (job : Job) (input : ApplyInput) (checked : Result ValidationResult)
      (w w' : World S) (app : Application)
      → submit P jobs apps storage webhooks id job input checked w ≡ (ok app, w')
      → (resume : ValidationResult) × (checked ≡ ok resume) × IsStored id job input resume w app w'
  submit-IsStored id job input (err x) w w' app e = cc
  submit-IsStored id job input (ok resume) w w' app e =
      (resume, refl, uploaded-IsStored id job input resume _ w w' app refl e)

  reader-IsAccepted :
      (read_error : DomainError) (filename : Text) (size : ℤ) (reader : Option Reader)
      (resume : ValidationResult)
      → validate_resume P.lower_rune read_error filename size reader ≡ ok resume
      → (r : Reader) × (reader ≡ some r) × IsAccepted P.lower_rune filename size r resume
  unfolding validate_resume
  reader-IsAccepted read_error filename size none resume e = cc
  reader-IsAccepted read_error filename size (some r) resume e =
      (r, refl, validate_resume-IsAccepted P.lower_rune read_error filename size r resume e)

  apply_to-IsSubmitted :
      (read_error : DomainError) (id : Text) (input : ApplyInput) (found : Result (Option Job))
      (w w' : World S) (app : Application)
      → jobs.get_by_id_or_slug input.job_id_or_slug w.store ≡ found
      → apply_to P jobs apps storage webhooks read_error id input found w ≡ (ok app, w')
      → IsSubmitted id input w app w'
  apply_to-IsSubmitted read_error id input (err x) w w' app f e = cc
  apply_to-IsSubmitted read_error id input (ok none) w w' app f e = cc
  apply_to-IsSubmitted read_error id input (ok (some job)) w w' app f e =
      elim (Bool-cases (not (text_eq job.status status_published))) [
        | inl hidden ↦ cc (rw hidden at e)
        | inr shown ↦ elim (Bool-cases (not (is_empty (apply_details P job input)))) [
          | inl rejected ↦ cc (rw (shown, rejected) at e)
          | inr passed ↦
              let (resume, checked, stored) =
                submit-IsStored id job input _ w w' app (rw (shown, passed) at e) in
              let (reader, given, accepted) = reader-IsAccepted read_error _ _ _ resume checked in
              let details = details-nil job input (is_empty_sound _ passed) in
              record {
                job = job;
                found = f;
                published = published_sound job shown;
                candidate = details.0;
                answers = (validate_custom_answers-eq-nil P _ _).0 (details.1);
                reader = reader;
                given = given;
                resume = resume;
                accepted = accepted;
                between = stored.between;
                stored_resume = stored.stored_resume;
                created = stored.created;
                events = stored.events;
              }
        ]
      ]

  -- A call of Apply that succeeds found a published job, checked the candidate and the answers to the
  -- job's questions, accepted the resume, uploaded it, stored the application in the stage applied
  -- with the key of the upload, and announced it.
  pub apply-IsSubmitted :
      (read_error : DomainError) (id : Text) (input : ApplyInput) (w w' : World S)
      (app : Application)
      → apply P jobs apps storage webhooks read_error id input w ≡ (ok app, w')
      → IsSubmitted id input w app w'
  unfolding apply
  apply-IsSubmitted read_error id input w w' app e =
      apply_to-IsSubmitted read_error id input (jobs.get_by_id_or_slug input.job_id_or_slug w.store)
        w w' app refl e
