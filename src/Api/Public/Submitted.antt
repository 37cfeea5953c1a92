-- ===== src/Api/Public/Submitted.antt =====
-- What an answer to POST /v1/public/jobs/{job_id}/apply means.
use job_board.Prelude.{
  ℕ, ◌≡◌, refl, sym, ap, ◌∙◌, Bool, true, false, [], ◌++◌, Option, if◌then◌else◌, none, some, inl,
  inr, Bool-cases,
}
use job_board.Prelude.Int.{ℤ}
use job_board.Text.{Text, txt, text_eq, trim_space}
use job_board.Domain.Types.{DomainError, Application, Result, ok, err}
use job_board.Domain.Values.{Platform}
use job_board.Domain.Answers.{Answers}
use job_board.Storage.Resume.{Reader}
use job_board.Service.World.{World, JobRepository, ApplicationRepository}
use job_board.Service.Applications.{ApplyInput, Storage, apply}
use job_board.Service.Applications.Apply.{IsSubmitted, apply-IsSubmitted}
use job_board.Api.Responses.{answer}
use job_board.Api.Responses.Pages.{is_answer, respond_error-fails}
use job_board.Api.Public.{
  Form, too_large, malformed, parsed, apply_cases, ApplicationSubmissionResponse, submission,
  apply_input, submitted, with_answers, with_form, apply_handler,
}

submitted-answer :
    (result : Result Application) (status : ℕ) (location : Option Text)
    (body : ApplicationSubmissionResponse)
    → submitted result ≡ answer status location body
    → (app : Application) × (result ≡ ok app)
      × (status ≡ 201)
      × (location ≡ some (txt "/v1/admin/applications/" ++ app.id))
      × (body ≡ submission app)
submitted-answer (ok app) status location body e = (app, refl, cc, cc, cc)
submitted-answer (err x) status location body e =
    let bad = respond_error-fails ApplicationSubmissionResponse apply_cases x in
    cc (sym bad ∙ ap is_answer e)

-- An optional field of a form: absent where it is blank, or else the text.
pub data Optional (text : Text) (field : Option Text) : Type 0 where
  absent : text_eq text (txt "") ≡ true → field ≡ none → Optional text field
  present : text_eq text (txt "") ≡ false → field ≡ some text → Optional text field

-- What an application takes from the values and the answers of a form.
pub record IsTyped (job : Text) (value : Text → Text) (answers : Answers) (input : ApplyInput)
    : Type 0 where
  pub job_given : input.job_id_or_slug ≡ job
  pub name : input.candidate_name ≡ trim_space (value (txt "candidate_name"))
  pub email : input.candidate_email ≡ trim_space (value (txt "candidate_email"))
  pub phone : Optional (trim_space (value (txt "candidate_phone"))) input.candidate_phone
  pub linkedin : Optional (trim_space (value (txt "linkedin_url"))) input.linkedin_url
  pub answered : input.custom_answers ≡ answers

optional_lem : (s : Text) → Optional s (if text_eq s (txt "") then none else some s)
optional_lem s = elim (Bool-cases (text_eq s (txt ""))) [
  | inl empty ↦ rw empty (absent empty refl)
  | inr given ↦ rw given (present given refl)
]

apply_input-IsTyped :
    (job : Text) (value : Text → Text) (file : Option (Text × (ℤ × Reader))) (answers : Answers)
    → IsTyped job value answers (apply_input job value file answers)
unfolding apply_input
apply_input-IsTyped job value file answers = record {
  job_given = refl;
  name = refl;
  email = refl;
  phone = optional_lem (trim_space (value (txt "candidate_phone")));
  linkedin = optional_lem (trim_space (value (txt "linkedin_url")));
  answered = refl;
}

-- A reader that an application has is the one of the file of the form, with its name and size.
file_lem :
    (job : Text) (value : Text → Text) (file : Option (Text × (ℤ × Reader))) (answers : Answers)
    (reader : Reader)
    → (apply_input job value file answers).resume_reader ≡ some reader
    → let input = apply_input job value file answers in
      file ≡ some (input.resume_filename, (input.resume_size, reader))
unfolding apply_input
file_lem job value none answers reader e = cc
file_lem job value (some (name, (size, r))) answers reader e =
    let same : r ≡ reader = cc e in rw same refl

module _ (P : Platform) {S : Type 0} (jobs : JobRepository S) (apps : ApplicationRepository S)
    (storage : Option (Storage S)) (webhooks : Bool) (decode_answers : Text → Option Answers) where
  -- The answers that a form field stands for: none where it is blank, or else what it decodes to.
  pub data Decodes (raw : Text) (answers : Answers) : Type 0 where
    blank : text_eq raw (txt "") ≡ true → answers ≡ [] → Decodes raw answers
    decoded : text_eq raw (txt "") ≡ false → decode_answers raw ≡ some answers → Decodes raw answers

  -- The application that was submitted from the form of a request, and the response to it.
  pub record IsAnswered (id job : Text) (form : Form) (w : World S) (status : ℕ)
      (location : Option Text) (body : ApplicationSubmissionResponse) (w' : World S) : Type 0 where
    pub value : Text → Text
    pub file : Option (Text × (ℤ × Reader))
    pub answers : Answers
    pub input : ApplyInput
    pub app : Application
    pub fields : form ≡ parsed value file
    pub custom : Decodes (trim_space (value (txt "custom_answers"))) answers
    pub created : status ≡ 201
    pub place : location ≡ some (txt "/v1/admin/applications/" ++ app.id)
    pub shown : body ≡ submission app
    pub typed : IsTyped job value answers input
    pub stored : IsSubmitted P jobs apps storage webhooks id input w app w'
    pub attached : file ≡ some (input.resume_filename, (input.resume_size, stored.reader))

  read_answers-Decodes :
      (raw : Text) (answers : Answers)
      → (if text_eq raw (txt "") then some [] else decode_answers raw) ≡ some answers
      → Decodes raw answers
  read_answers-Decodes raw answers e = elim (Bool-cases (text_eq raw (txt ""))) [
    | inl empty ↦ let same : [] ≡ answers = cc (rw empty at e) in blank empty (sym same)
    | inr given ↦ decoded given (rw given at e)
  ]

  with_answers-IsAnswered :
      (read_error : DomainError) (id job : Text) (value : Text → Text)
      (file : Option (Text × (ℤ × Reader))) (answers : Option Answers) (w w' : World S) (status : ℕ)
      (location : Option Text) (body : ApplicationSubmissionResponse)
      → ((found : Answers)
          → answers ≡ some found
          → Decodes (trim_space (value (txt "custom_answers"))) found)
      → with_answers P jobs apps storage webhooks decode_answers read_error id job value file
          answers w
        ≡ (answer status location body, w')
      → IsAnswered id job (parsed value file) w status location body w'
  with_answers-IsAnswered read_error id job value file none w w' status location body d e = cc
  with_answers-IsAnswered read_error id job value file (some answers) w w' status location body d
        e =
      let input = apply_input job value file answers in
      let result = apply P jobs apps storage webhooks read_error id input w in
      let (app, is_ok, created, place, shown) =
        submitted-answer result.0 status location body (ap (λ p. p.0) e) in
      let after : result.1 ≡ w' = ap (λ p. p.1) e in
      let whole : result ≡ (ok app, w') = λ i. (is_ok i, after i) in
      let done =
        apply-IsSubmitted P jobs apps storage webhooks read_error id input w w' app whole in
      record {
        value = value;
        file = file;
        answers = answers;
        input = input;
        app = app;
        fields = refl;
        custom = d answers refl;
        created = created;
        place = place;
        shown = shown;
        typed = apply_input-IsTyped job value file answers;
        stored = done;
        attached = file_lem job value file answers done.reader done.given;
      }

  with_form-IsAnswered :
      (read_error : DomainError) (id job : Text) (form : Form) (w w' : World S) (status : ℕ)
      (location : Option Text) (body : ApplicationSubmissionResponse)
      → with_form P jobs apps storage webhooks decode_answers read_error id job form w
        ≡ (answer status location body, w')
      → IsAnswered id job form w status location body w'
  with_form-IsAnswered read_error id job too_large w w' status location body e = cc
  with_form-IsAnswered read_error id job malformed w w' status location body e = cc
  with_form-IsAnswered read_error id job (parsed value file) w w' status location body e =
      with_answers-IsAnswered read_error id job value file _ w w' status location body
        (read_answers-Decodes (trim_space (value (txt "custom_answers")))) e

  -- A request to apply that is answered with a value is answered with 201, the place of the
  -- application and its fields. The form of the request could be read, and its custom answers are
  -- blank or could be decoded; for the job of the route, a published one, and with the fields, the
  -- file and the answers of that form the application was checked, its resume accepted and uploaded,
  -- and it was stored and, where there is a webhook service, announced.
  pub apply_handler-IsAnswered :
      (read_error : DomainError) (id job : Text) (form : Form) (w w' : World S) (status : ℕ)
      (location : Option Text) (body : ApplicationSubmissionResponse)
      → apply_handler P jobs apps storage webhooks decode_answers read_error id job form w
        ≡ (answer status location body, w')
      → IsAnswered id (trim_space job) form w status location body w'
  unfolding apply_handler
  apply_handler-IsAnswered read_error id job form w w' status location body e =
      elim (Bool-cases (text_eq (trim_space job) (txt ""))) [
        | inl missing ↦ cc (rw missing at e)
        | inr given ↦
            with_form-IsAnswered read_error id (trim_space job) form w w' status location body
              (rw given at e)
      ]
