-- ===== src/Service/Jobs/Created.antt =====
-- What a call of CreateJob leads to.
use job_board.Prelude.{
  ◌≡◌, refl, ◌≢◌, inl, inr, sym, ap, Bool, true, false, not, ◌&&◌, List, [], ◌∷◌, Bool-cases,
  is_empty, if◌then◌else◌,
}
use job_board.Text.{Text, txt, text_eq, trim_space}
use job_board.Text.Equality.{blank-eq-false}
use job_board.Domain.Types.{
  ErrorDetail, validation_error, Result, ok, err, Job, Time, status_published, event_job_published,
}
use job_board.Domain.Values.{Platform}
use job_board.Domain.Slug.{is_valid_slug}
use job_board.Domain.Slug.Valid.{is_valid_slug-generate_slug}
use job_board.Domain.JobInput.{JobIsValid, validate_job_input}
use job_board.Domain.JobInput.Acceptance.{validate_job_input-eq-nil}
use job_board.Service.World.{World, Event, of_job, JobRepository}
use job_board.Service.Jobs.{
  CreateJobInput, create_attributes, new_job, create_job, create_done, validation_message,
  or_default,
}

or_default-Good :
    (Good : Text → Type 0) (t default : Text)
    → (t ≢ [] → Good t)
    → Good default
    → Good (or_default t default)
or_default-Good Good t default given h = elim (Bool-cases (text_eq t (txt ""))) [
  | inl blank ↦ rw blank h
  | inr not_blank ↦ rw not_blank (given ((blank-eq-false t).0 not_blank))
]

pub is_empty_sound {ℓ} : {A : Type ℓ} (xs : List A) → not (is_empty xs) ≡ false → xs ≡ []
is_empty_sound [] e = refl
is_empty_sound (x ∷ xs) e = cc

pub is_empty_of {ℓ} : {A : Type ℓ} (xs : List A) → xs ≢ [] → not (is_empty xs) ≡ true
is_empty_of [] n = absurd (n refl)
is_empty_of (x ∷ xs) n = refl

-- The event that a new job is announced with, if it is.
abbrev pub announced : Bool → Job → List Event → List Event
announced webhooks job events =
    if webhooks && text_eq job.status status_published
    then record { topic = event_job_published; payload = of_job job } ∷ events
    else events

module _ (P : Platform) {S : Type 0} (repo : JobRepository S) (webhooks : Bool) where
  -- Everything that a call of CreateJob that succeeds has done.
  pub record IsCreated (now : Time) (id : Text) (input : CreateJobInput) (w : World S) (job : Job)
      (w' : World S) : Type 0 where
    pub attributes : JobIsValid P (create_attributes P input)
    pub slug : is_valid_slug (new_job P now id input).slug ≡ true
    pub stored : repo.create (new_job P now id input) w.store ≡ (ok job, w'.store)
    pub events : w'.events ≡ announced webhooks job w.events

  new_job-slug :
      (now : Time) (id : Text) (input : CreateJobInput)
      → JobIsValid P (create_attributes P input)
      → is_valid_slug (new_job P now id input).slug ≡ true
  unfolding new_job create_attributes
  new_job-slug now id input v = elim (Bool-cases (text_eq (trim_space input.slug) (txt ""))) [
    | inl blank ↦ rw blank (is_valid_slug-generate_slug P.lower_rune input.title)
    | inr not_blank ↦
        let given = (blank-eq-false (trim_space input.slug)).0 not_blank in
        rw not_blank (rw not_blank at (v.slug) given)
  ]

  create_done-ok :
      (created : Result Job × S) (w w' : World S) (job : Job)
      → create_done P repo webhooks created w ≡ (ok job, w')
      → (created ≡ (ok job, w'.store)) × (w'.events ≡ announced webhooks job w.events)
  create_done-ok (err x, s) w w' job e = cc
  create_done-ok (ok j, s) w w' job e =
      let same : j ≡ job = cc e in
      elim (Bool-cases (webhooks && text_eq j.status status_published)) [
        | inl announces ↦
            (cc e, rw (← same, announces) (sym (ap (λ p. (p.1).events) (rw announces at e))))
        | inr quiet ↦ (cc e, rw (← same, quiet) (sym (ap (λ p. (p.1).events) (rw quiet at e))))
      ]

  -- A call of CreateJob that succeeds had valid attributes, gave the job a valid slug, stored it, and
  -- announced it when it is published, and did nothing else.
  pub create_job-IsCreated :
      (now : Time) (id : Text) (input : CreateJobInput) (w w' : World S) (job : Job)
      → create_job P repo webhooks now id input w ≡ (ok job, w')
      → IsCreated now id input w job w'
  unfolding create_job
  create_job-IsCreated now id input w w' job e =
      elim (Bool-cases (not (is_empty (validate_job_input P (create_attributes P input))))) [
        | inl rejected ↦ cc (rw rejected at e)
        | inr accepted ↦
            let v = (validate_job_input-eq-nil P _).0 (is_empty_sound _ accepted) in
            let d = create_done-ok _ w w' job (rw accepted at e) in
            record {
              attributes = v;
              slug = new_job-slug now id input v;
              stored = d.0;
              events = d.1;
            }
      ]

  -- CreateJob rejects attributes that are not valid: it reports something, and stores and announces
  -- nothing.
  pub create_job-rejects :
      (now : Time) (id : Text) (input : CreateJobInput) (w : World S)
      → ¬ JobIsValid P (create_attributes P input)
      → (details : List ErrorDetail) × (details ≢ [])
        × (create_job P repo webhooks now id input w
            ≡ (err (validation_error validation_message details), w))
  unfolding create_job
  create_job-rejects now id input w bad =
      let some_issue : validate_job_input P (create_attributes P input) ≢ [] =
        λ e. bad ((validate_job_input-eq-nil P _).0 e) in
      (_, some_issue, rw (is_empty_of _ some_issue))
