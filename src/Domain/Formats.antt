-- ===== src/Domain/Formats.antt =====
-- internal/domain/validation.go and webhook.go: the e-mail and custom-field-id patterns, and the
-- tests for the enumerations.
use job_board.Prelude.{
  ℕ, Bool, false, not, ◌&&◌, ◌||◌, List, [], ◌∷◌, leb, ◌==◌, length, is_empty, any, all,
}
use job_board.Text.{Text, text_eq, is_letter, is_alnum}
use job_board.Domain.Types.{
  JobStatus, status_draft, status_published, status_archived, EmploymentType, full_time, part_time,
  contract, internship, ApplicationStage, stage_applied, stage_screening, stage_interviewing,
  stage_offer, stage_hired, stage_rejected, event_job_published, event_job_archived,
  event_application_created, event_application_stage_updated, event_application_rejected,
  event_webhook_ping, event_all,
}
use job_board.Domain.Values.{Platform}

-- The classes [a-zA-Z0-9._%+\-] and [a-zA-Z0-9.\-].
abbrev is_local_char : ℕ → Bool
is_local_char c = is_alnum c || c == b'.' || c == b'_' || c == b'%' || c == b'+' || c == b'-'

abbrev is_domain_char : ℕ → Bool
is_domain_char c = is_alnum c || c == b'.' || c == b'-'

-- `emailRegex`, one function for what each part of the pattern leaves to match:
-- \.[a-zA-Z]{2,}$ at the end, [a-zA-Z0-9.\-]* before it, and [a-zA-Z0-9._%+\-]*@ before that.
matches_top : Text → Bool
matches_top [] = false
matches_top (c ∷ s) = c == b'.' && (leb 2 (length s) && all is_letter s)

matches_domain_rest : Text → Bool
matches_domain_rest [] = false
matches_domain_rest (c ∷ s) = matches_top (c ∷ s) || is_domain_char c && matches_domain_rest s

matches_domain : Text → Bool
matches_domain [] = false
matches_domain (c ∷ s) = is_domain_char c && matches_domain_rest s

matches_local_rest : Text → Bool
matches_local_rest [] = false
matches_local_rest (c ∷ s) =
    c == b'@' && matches_domain s || is_local_char c && matches_local_rest s

unfoldable pub matches_email : Text → Bool
unfolding matches_top matches_domain_rest matches_domain matches_local_rest
matches_email [] = false
matches_email (c ∷ s) = is_local_char c && matches_local_rest s

-- `IsValidEmail`
unfoldable pub is_valid_email : Platform → Text → Bool
is_valid_email P email = matches_email email && P.parses_address email

-- `customFieldIDRegex`, ^[a-zA-Z0-9_-]+$
unfoldable pub matches_field_id : Text → Bool
matches_field_id s = not (is_empty s) && all (λ c. is_alnum c || c == b'_' || c == b'-') s

abbrev pub one_of : List Text → Text → Bool
one_of options s = any (λ option. text_eq s option) options

unfoldable pub is_valid_employment_type : EmploymentType → Bool
is_valid_employment_type = one_of (full_time ∷ part_time ∷ contract ∷ internship ∷ [])

unfoldable pub is_valid_job_status : JobStatus → Bool
is_valid_job_status = one_of (status_draft ∷ status_published ∷ status_archived ∷ [])

unfoldable pub is_valid_stage : ApplicationStage → Bool
is_valid_stage = one_of (
    stage_applied ∷ stage_screening ∷ stage_interviewing ∷ stage_offer ∷ stage_hired
    ∷ stage_rejected ∷ [])

-- `AllWebhookEvents`
abbrev pub all_webhook_events : List Text
all_webhook_events =
    event_job_published ∷ event_job_archived ∷ event_application_created
    ∷ event_application_stage_updated ∷ event_application_rejected ∷ event_webhook_ping ∷ []

-- `IsValidWebhookEvent`
unfoldable pub is_valid_webhook_event : Text → Bool
is_valid_webhook_event event = text_eq event event_all || one_of all_webhook_events event
