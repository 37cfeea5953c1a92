-- ===== src/Tests/Domain.antt =====
-- The validators and the slugs, at inputs of the kind that the repository's tests use.
use job_board.Prelude.{◌≤◌, ◌≡◌, refl, ◌≢◌, ◌↔◌, true, [], ◌∷◌, none, some, All}
use job_board.Prelude.Int.{pos}
use job_board.Text.{Text, txt, len, trim_space}
use job_board.Domain.Types.{CustomField, full_time, status_draft, event_all}
use job_board.Domain.Values.{Value, str, number}
use job_board.Domain.Formats.{is_valid_stage, is_valid_webhook_event}
use job_board.Domain.Slug.{generate_slug, is_valid_slug}
use job_board.Domain.Slug.Valid.{is_valid_slug-generate_slug}
use job_board.Domain.Slug.Stable.{generate_slug-fixed}
use job_board.Domain.Candidate.{
  validate_candidate_input, EmailIsValid, PhoneIsValid, LinkedinIsValid,
  validate_candidate_input-eq-nil,
}
use job_board.Domain.Answers.{
  Answers, AnswerIsValid, validate_custom_answers, validate_custom_answers-eq-nil,
}
use job_board.Domain.CustomFields.{validate_custom_fields, FieldIsValid, IdsAreNew}
use job_board.Domain.CustomFields.Acceptance.{validate_custom_fields-eq-nil}
use job_board.Domain.JobInput.{JobInput, JobIsValid, validate_job_input}
use job_board.Domain.JobInput.Acceptance.{validate_job_input-eq-nil}
use job_board.Domain.Requests.{validate_webhook_subscription_input, TargetIsValid, SecretIsValid}
use job_board.Domain.Requests.Acceptance.{EventIsValid, validate_webhook_subscription_input-eq-nil}
use job_board.Tests.Platforms.{ascii_platform}

-- Runs of the definitions.
slug_of_title :
    generate_slug (λ c. c) (txt "  Senior Go Engineer (Remote)! ") ≡ txt "senior-go-engineer-remote"
unfolding generate_slug txt job_board.Domain.Slug.finish_slug job_board.Text.text_eq
    job_board.Text.trim job_board.Domain.Slug.slug_loop job_board.Text.to_lower trim_space
    job_board.Domain.Slug.is_slug_char len
slug_of_title = refl

slug_of_symbols : generate_slug (λ c. c) (txt "---") ≡ txt "job"
unfolding generate_slug txt job_board.Domain.Slug.finish_slug job_board.Text.text_eq
    job_board.Text.trim job_board.Domain.Slug.slug_loop job_board.Text.to_lower trim_space
    job_board.Domain.Slug.is_slug_char
slug_of_symbols = refl

abbrev portfolio : CustomField
portfolio = record {
  id = txt "years";
  label = txt "Years";
  type = txt "number";
  required = true;
  options = [];
}

abbrev answers : Answers
answers = (txt "years", number (pos 4)) ∷ []

abbrev posting : JobInput
posting = record {
  title = txt "Go Engineer";
  department = txt "Engineering";
  location = txt "Berlin";
  description_markdown = txt "Build things";
  emp_type = full_time;
  status = status_draft;
  experience_level = none;
  salary_min = some (pos 10);
  salary_max = some (pos 20);
  salary_currency = txt "EUR";
  slug = txt "go-engineer";
  custom_fields = portfolio ∷ [];
}

posting_accepted : validate_job_input ascii_platform posting ≡ []
unfolding validate_job_input txt job_board.Domain.Report.required_within job_board.Text.text_eq
    trim_space len job_board.Domain.Report.report_if
    job_board.Domain.Formats.is_valid_employment_type job_board.Domain.Formats.is_valid_job_status
    is_valid_slug job_board.Domain.Slug.matches_slug validate_custom_fields
    job_board.Domain.Formats.matches_field_id job_board.Text.is_alnum job_board.Text.to_lower
posting_accepted = refl

answers_accepted : validate_custom_answers ascii_platform (portfolio ∷ []) answers ≡ []
unfolding validate_custom_answers txt job_board.Domain.Answers.missing job_board.Text.text_eq
    job_board.Domain.Values.is_empty_value job_board.Text.to_lower job_board.Domain.Report.report_if
    job_board.Domain.Values.is_valid_number
answers_accepted = refl

is_valid_slug-generate_slug_example :
    is_valid_slug (generate_slug (λ c. c) (txt "Go & Rust!")) ≡ true
is_valid_slug-generate_slug_example = is_valid_slug-generate_slug (λ c. c) (txt "Go & Rust!")

go_slug : is_valid_slug (txt "go-engineer-2") ≡ true
unfolding is_valid_slug txt len job_board.Domain.Slug.matches_slug
go_slug = refl

generate_slug-fixed_example : generate_slug (λ c. c) (txt "go-engineer-2") ≡ txt "go-engineer-2"
generate_slug-fixed_example = generate_slug-fixed (λ c. c) (txt "go-engineer-2") go_slug

validate_job_input-eq-nil_example :
    (validate_job_input ascii_platform posting ≡ []) ↔ JobIsValid ascii_platform posting
validate_job_input-eq-nil_example = validate_job_input-eq-nil ascii_platform posting

validate_custom_answers-eq-nil_example :
    (validate_custom_answers ascii_platform (portfolio ∷ []) answers ≡ [])
    ↔ All (AnswerIsValid ascii_platform answers) (portfolio ∷ [])
validate_custom_answers-eq-nil_example =
    validate_custom_answers-eq-nil ascii_platform (portfolio ∷ []) answers

validate_custom_fields-eq-nil_example :
    (validate_custom_fields ascii_platform (portfolio ∷ portfolio ∷ []) ≡ []) ↔ (
      All (FieldIsValid ascii_platform) (portfolio ∷ portfolio ∷ [])
      × IdsAreNew [] (portfolio ∷ portfolio ∷ []))
validate_custom_fields-eq-nil_example =
    validate_custom_fields-eq-nil ascii_platform (portfolio ∷ portfolio ∷ [])

validate_candidate_input-eq-nil_example :
    (validate_candidate_input ascii_platform (txt "Ada") (txt "ada@example.com") none none ≡ []) ↔ (
      ((trim_space (txt "Ada") ≢ []) × (len (trim_space (txt "Ada")) ≤ 255))
      × (EmailIsValid ascii_platform (trim_space (txt "ada@example.com"))
          × (PhoneIsValid ascii_platform none × LinkedinIsValid ascii_platform none)))
validate_candidate_input-eq-nil_example =
    validate_candidate_input-eq-nil ascii_platform (txt "Ada") (txt "ada@example.com") none none

validate_webhook_subscription_input-eq-nil_example :
    (validate_webhook_subscription_input ascii_platform
        (txt "https://example.com/hook")
        (event_all ∷ [])
        none
      ≡ [])
    ↔ (TargetIsValid ascii_platform (trim_space (txt "https://example.com/hook"))
        × (((event_all ∷ [] ≢ []) × All EventIsValid (event_all ∷ []))
            × SecretIsValid ascii_platform none))
validate_webhook_subscription_input-eq-nil_example =
    validate_webhook_subscription_input-eq-nil ascii_platform (txt "https://example.com/hook")
      (event_all ∷ []) none
