-- ===== src/Service/Jobs/Updated.antt =====
-- What a call of UpdateJob leads to.
use job_board.Prelude.{
  ◌≡◌, refl, ◌≢◌, inl, inr, ap, Bool, true, false, not, ◌&&◌, List, ◌∷◌, Option, none, some, arith,
  Bool-cases, Option-cases, is_empty,
}
use job_board.Text.{Text, text_eq}
use job_board.Text.Equality.{text_eq_sound, text_eq_refl}
use job_board.Domain.Types.{
  Result, ok, err, Job, Time, JobStatus, status_published, status_archived, event_job_published,
  event_job_archived,
}
use job_board.Domain.Values.{Platform}
use job_board.Domain.JobInput.{JobIsValid, validate_job_input}
use job_board.Domain.JobInput.Acceptance.{validate_job_input-eq-nil}
use job_board.Service.World.{World, Event, Told, told, untold, of_job, JobRepository}
use job_board.Service.Jobs.{
  CreateJobInput, create_attributes, new_job, UpdateJobInput, update_attributes, updated_job,
  update_job, update_done, update_found,
}
use job_board.Service.Jobs.Created.{is_empty_sound}

-- The event that a change of status is announced with: a job that becomes published or archived.
pub data Announces (before : JobStatus) (job : Job) : List Event → List Event → Type 0 where
  becomes_published :
      {events : List Event}
      → before ≢ status_published
      → job.status ≡ status_published
      → Announces before job events
          (record { topic = event_job_published; payload = of_job job } ∷ events)
  becomes_archived :
      {events : List Event}
      → before ≢ status_archived
      → job.status ≡ status_archived
      → Announces before job events
          (record { topic = event_job_archived; payload = of_job job } ∷ events)
  stays_silent :
      {events : List Event}
      → (job.status ≡ status_published → before ≡ status_published)
      → (job.status ≡ status_archived → before ≡ status_archived)
      → Announces before job events events

-- A published job has the time of its publication.
abbrev pub HasPublishTime : Job → Type 0
HasPublishTime job = job.status ≡ status_published → job.published_at ≢ none

-- The test of a status that changes to `status`.
abbrev reaches : JobStatus → JobStatus → JobStatus → Bool
reaches status before after = not (text_eq before status) && text_eq after status

reaches-true :
    (status before after : JobStatus)
    → reaches status before after ≡ true
    → (before ≢ status) × (after ≡ status)
reaches-true status before after e = elim (Bool-cases (text_eq before status)) [
  | inl was ↦ cc (rw was at e)
  | inr was_not ↦ (
    λ p. let was : text_eq before status ≡ true = rw p (text_eq_refl status) in cc (was_not, was),
    text_eq_sound after status (rw was_not at e),
  )
]

reaches-false :
    (status before after : JobStatus)
    → reaches status before after ≡ false
    → after ≡ status
    → before ≡ status
reaches-false status before after e p = elim (Bool-cases (text_eq before status)) [
  | inl was ↦ text_eq_sound before status was
  | inr was_not ↦ cc (rw (was_not, p, text_eq_refl status) at e)
]

module _ (P : Platform) where
  -- A job that was once published keeps the time of its first publication, whatever the update.
  pub updated_job-published_at :
      (now : Time) (job : Job) (input : UpdateJobInput) (t : Time)
      → job.published_at ≡ some t
      → (updated_job P now job input).published_at ≡ some t
  unfolding updated_job
  updated_job-published_at now job input t e = elim (Option-cases input.status) [
    | inl absent ↦ rw absent e
    | inr (status, given) ↦ rw (given, e) refl
  ]

  -- A job that CreateJob makes has the time of its publication, if it is published.
  new_job-HasPublishTime :
      (now : Time) (id : Text) (input : CreateJobInput) → HasPublishTime (new_job P now id input)
  unfolding new_job create_attributes
  new_job-HasPublishTime now id input e = rw (e, text_eq_refl status_published) (λ p. cc p)

  -- An update keeps it so that every published job has the time of its publication.
  pub updated_job-HasPublishTime :
      (now : Time) (job : Job) (input : UpdateJobInput)
      → HasPublishTime job
      → HasPublishTime (updated_job P now job input)
  unfolding updated_job update_attributes
  updated_job-HasPublishTime now job input h = elim (Option-cases input.status) [
    | inl absent ↦ rw absent h
    | inr (status, given) ↦ elim (Option-cases job.published_at) [
      | inr (t, published) ↦ rw (given, published) (λ _ p. cc p)
      | inl unpublished ↦
          rw (given, unpublished) (λ e. rw (e, text_eq_refl status_published) (λ p. cc p))
    ]
  ]

  module _ {S : Type 0} (repo : JobRepository S) (webhooks : Bool) where
    -- Everything that a call of UpdateJob that succeeds has done.
    pub record IsUpdated (now : Time) (id : Text) (input : UpdateJobInput) (w : World S) (job : Job)
        (w' : World S) : Type 0 where
      pub before : Job
      pub found : repo.get_by_id id w.store ≡ ok (some before)
      pub attributes : JobIsValid P (update_attributes P before input)
      pub stored : repo.update (updated_job P now before input) w.store ≡ (ok job, w'.store)
      pub events : Told webhooks (Announces before.status job) w.events w'.events

    status_change_event :
        (before : JobStatus) (j : Job) (w : World S)
        → Announces before j w.events ((update_done P repo true before (ok j, w.store) w).1).events
    status_change_event before j w = elim (Bool-cases (reaches status_published before j.status)) [
      | inl published ↦
          let change = reaches-true status_published before j.status published in
          rw published (becomes_published change.0 change.1)
      | inr not_published ↦ elim (Bool-cases (reaches status_archived before j.status)) [
        | inl archived ↦
            let change = reaches-true status_archived before j.status archived in
            rw (not_published, archived) (becomes_archived change.0 change.1)
        | inr not_archived ↦
            rw (not_published, not_archived)
              (stays_silent (reaches-false status_published before j.status not_published)
                (reaches-false status_archived before j.status not_archived))
      ]
    ]

    no_event :
        (before : JobStatus) (j : Job) (w : World S)
        → ((update_done P repo false before (ok j, w.store) w).1).events ≡ w.events
    no_event before j w = ground arith

    announces_lem :
        (before : JobStatus) (j : Job) (w : World S)
        → Told webhooks
            (Announces before j)
            w.events
            ((update_done P repo webhooks before (ok j, w.store) w).1).events
    announces_lem before j w = elim (Bool-cases webhooks) [
      | inl on ↦ rw on (told refl (status_change_event before j w))
      | inr off ↦ rw off (untold refl (no_event before j w))
    ]

    store_lem :
        (before : JobStatus) (j : Job) (w : World S)
        → ((update_done P repo webhooks before (ok j, w.store) w).1).store ≡ w.store
    store_lem before j w = ground arith

    update_done-ok :
        (before : JobStatus) (updated : Result Job × S) (w w' : World S) (job : Job)
        → update_done P repo webhooks before updated w ≡ (ok job, w')
        → (updated ≡ (ok job, w'.store)) × Told webhooks (Announces before job) w.events w'.events
    update_done-ok before (err x, s) w w' job e = cc
    update_done-ok before (ok j, s) w w' job e =
        let same : j ≡ job = cc e in
        (
          cc (ap (λ p. (p.1).store) e, store_lem before j (record w { store = s })),
          rw (← same, ← (ap (λ p. (p.1).events) e))
              (announces_lem before j (record w { store = s })),
        )

    update_found-ok :
        (now : Time) (id : Text) (input : UpdateJobInput) (found : Result (Option Job))
        (w w' : World S) (job : Job)
        → repo.get_by_id id w.store ≡ found
        → update_found P repo webhooks now input found w ≡ (ok job, w')
        → IsUpdated now id input w job w'
    update_found-ok now id input (err x) w w' job f e = cc
    update_found-ok now id input (ok none) w w' job f e = cc
    update_found-ok now id input (ok (some before)) w w' job f e =
        elim (Bool-cases
          (not (is_empty (validate_job_input P (update_attributes P before input))))) [
            | inl rejected ↦ cc (rw rejected at e)
            | inr accepted ↦
                let d = update_done-ok before.status _ w w' job (rw accepted at e) in
                record {
                  before = before;
                  found = f;
                  attributes = (validate_job_input-eq-nil P _).0 (is_empty_sound _ accepted);
                  stored = d.0;
                  events = d.1;
                }
          ]

    -- A call of UpdateJob that succeeds found the job, replaced its attributes by valid ones, stored
    -- it, and, where there is a webhook service, announced exactly the change to published or to
    -- archived; where there is none, it announced nothing.
    pub update_job-IsUpdated :
        (now : Time) (id : Text) (input : UpdateJobInput) (w w' : World S) (job : Job)
        → update_job P repo webhooks now id input w ≡ (ok job, w')
        → IsUpdated now id input w job w'
    unfolding update_job
    update_job-IsUpdated now id input w w' job e =
        update_found-ok now id input (repo.get_by_id id w.store) w w' job refl e
