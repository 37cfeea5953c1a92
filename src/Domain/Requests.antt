-- ===== src/Domain/Requests.antt =====
-- internal/domain/validation.go: ValidateStageUpdate, ValidateNoteInput and
-- ValidateWebhookSubscriptionInput, and when they accept.
pub mod Acceptance
use job_board.Prelude.{
  ℕ, ◌+◌, ◌≤◌, ◌≡◌, refl, ◌≢◌, ◌↔◌, Bool, true, false, not, ◌&&◌, List, [], ◌∷◌, ◌++◌, Option, none,
  some, ltb, arith, if◌then◌else◌, is_empty, All,
}
use job_board.Text.{Text, txt, text_eq, len, trim_space, join}
use job_board.Text.Decimal.{itoa}
use job_board.Domain.Types.{ErrorDetail, ApplicationStage}
use job_board.Domain.Values.{Platform, str, is_valid_url}
use job_board.Domain.Formats.{is_valid_stage, is_valid_webhook_event, all_webhook_events}
use job_board.Domain.Report.{
  report, report_if, required_within, report_if-eq-nil, required_within-eq-nil, reports-eq-nil,
  given_and,
}

-- `ValidateStageUpdate`
unfoldable pub validate_stage_update : ApplicationStage → Option Text → List ErrorDetail
validate_stage_update stage rejected_reason =
    report_if (not (is_valid_stage stage)) (txt "stage") (
      txt "Invalid stage. Must be one of: applied, screening, interviewing, offer, hired, rejected")
    ++ report_if (given_and (λ reason. ltb 255 (len (trim_space reason))) rejected_reason)
        (txt "rejected_reason") (txt "Rejected reason cannot exceed 255 characters")

-- `ValidateNoteInput`
unfoldable pub validate_note_input : Text → Text → List ErrorDetail
validate_note_input author_name note_text =
    required_within 255 (trim_space author_name) (txt "author_name") (txt "Author name is required")
      (txt "Author name cannot exceed 255 characters")
    ++ report_if (text_eq (trim_space note_text) (txt "")) (txt "note_text")
        (txt "Note text is required")

abbrev event_at : ℕ → Text
event_at i = txt "events[" ++ (itoa i ++ txt "]")

-- The loop over the events, from event number `i`.
unfoldable pub check_events : ℕ → List Text → List ErrorDetail
check_events i [] = []
check_events i (event ∷ events) =
    let trimmed_event = trim_space event in
    (if text_eq trimmed_event (txt "")
      then report (event_at i) (txt "Event name cannot be blank")
      else report_if (not (is_valid_webhook_event trimmed_event)) (event_at i) (
          txt "Invalid event '"
          ++ (trimmed_event
              ++ (txt "'. Must be one of: " ++ (join (txt ", ") all_webhook_events ++ txt ", *")))))
    ++ check_events (i + 1) events

module _ (P : Platform) where
  unfoldable pub check_target_url : Text → List ErrorDetail
  check_target_url trimmed_url =
      if text_eq trimmed_url (txt "")
      then report (txt "target_url") (txt "target_url is required")
      else if ltb 1024 (len trimmed_url)
      then report (txt "target_url") (txt "target_url cannot exceed 1024 characters")
      else report_if (not (is_valid_url P (str trimmed_url))) (txt "target_url")
          (txt "target_url must be a valid HTTP or HTTPS URL")

  -- `ValidateWebhookSubscriptionInput`
  unfoldable pub validate_webhook_subscription_input :
      Text → List Text → Option Text → List ErrorDetail
  unfolding check_events check_target_url
  validate_webhook_subscription_input target_url events secret_token =
      check_target_url (trim_space target_url)
      ++ ((if is_empty events
            then report (txt "events") (txt "events array must contain at least one event")
            else check_events 0 events)
          ++ report_if
              (given_and
                (λ secret.
                  not (text_eq (trim_space secret) (txt "")) && ltb 255 (len (trim_space secret)))
                secret_token)
              (txt "secret_token") (txt "secret_token cannot exceed 255 characters"))

  -- The secret of a subscription, when one is given.
  abbrev pub SecretIsValid : Option Text → Type 0
  SecretIsValid secret = (s : Text) → secret ≡ some s → len (trim_space s) ≤ 255

  abbrev pub TargetIsValid : Text → Type 0
  TargetIsValid url = (url ≢ []) × (len url ≤ 1024) × (is_valid_url P (str url) ≡ true)
