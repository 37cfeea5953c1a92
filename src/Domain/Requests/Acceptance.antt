-- ===== src/Domain/Requests/Acceptance.antt =====
-- When the validators of stage updates, notes and webhook subscriptions accept.
use job_board.Prelude.{
  ℕ, ◌+◌, ◌≤◌, ◌≡◌, refl, ◌≢◌, ◌↔◌, Bool, true, false, not, ◌&&◌, List, [], ◌∷◌, Option, none, some,
  ltb, arith, All, if◌then◌else◌, is_empty,
}
use job_board.Text.{Text, txt, text_eq, len, trim_space}
use job_board.Domain.Types.{ApplicationStage}
use job_board.Domain.Values.{Platform}
use job_board.Domain.Formats.{is_valid_stage, is_valid_webhook_event}
use job_board.Domain.Report.{
  report, report_if, required_within-eq-nil, reports-eq-nil, given_and, blank_iff, when_iff,
}
use job_board.Domain.Requests.{
  validate_stage_update, validate_note_input, check_events, check_target_url,
  validate_webhook_subscription_input, SecretIsValid, TargetIsValid,
}

not-eq-false : (b : Bool) → (not b ≡ false) ↔ (b ≡ true)
not-eq-false b = ground arith

reason_iff :
    (o : Option Text)
    → (given_and (λ reason. ltb 255 (len (trim_space reason))) o ≡ false)
      ↔ ((reason : Text) → o ≡ some reason → len (trim_space reason) ≤ 255)
reason_iff none = (λ _ a e. cc, λ _. refl)
reason_iff (some reason) = (λ h b e. ground arith, λ h. let short = h reason refl in ground arith)

-- ValidateStageUpdate accepts exactly a stage of the enumeration with a reason of at most 255 bytes.
pub validate_stage_update-eq-nil :
    (stage : ApplicationStage) (reason : Option Text)
    → (validate_stage_update stage reason ≡ [])
      ↔ ((is_valid_stage stage ≡ true) × ((r : Text) → reason ≡ some r → len (trim_space r) ≤ 255))
unfolding validate_stage_update
validate_stage_update-eq-nil stage reason =
    reports-eq-nil (when_iff _ _ (not-eq-false (is_valid_stage stage)))
      (when_iff _ _ (reason_iff reason))

-- ValidateNoteInput accepts exactly an author of 1 to 255 bytes and a text that is not blank.
pub validate_note_input-eq-nil :
    (author note : Text)
    → (validate_note_input author note ≡ [])
      ↔ (((trim_space author ≢ []) × (len (trim_space author) ≤ 255)) × (trim_space note ≢ []))
unfolding validate_note_input
validate_note_input-eq-nil author note =
    reports-eq-nil (required_within-eq-nil 255 (trim_space author) _ _ _) (blank_iff _ _ _)

abbrev pub EventIsValid : Text → Type 0
EventIsValid event = (trim_space event ≢ []) × (is_valid_webhook_event (trim_space event) ≡ true)

event_iff :
    (t f₁ i₁ f₂ i₂ : Text) (valid : Bool)
    → ((if text_eq t (txt "") then report f₁ i₁ else report_if (not valid) f₂ i₂) ≡ [])
      ↔ ((t ≢ []) × (valid ≡ true))
unfolding report_if text_eq txt
event_iff [] f₁ i₁ f₂ i₂ valid = (λ e. cc, λ h. absurd (h.0 refl))
event_iff (c ∷ t) f₁ i₁ f₂ i₂ valid = (λ e. ((λ p. cc p), ground arith), λ h. ground arith)

check_events-eq-nil :
    (i : ℕ) (events : List Text) → (check_events i events ≡ []) ↔ All EventIsValid events
unfolding check_events
check_events-eq-nil i [] = (λ _. tt, λ _. refl)
check_events-eq-nil i (event ∷ events) =
    reports-eq-nil (event_iff (trim_space event) _ _ _ _ _) (check_events-eq-nil (i + 1) events)

events_iff :
    (events : List Text) (f i : Text)
    → ((if is_empty events then report f i else check_events 0 events) ≡ [])
      ↔ ((events ≢ []) × All EventIsValid events)
events_iff [] f i = (λ e. cc, λ h. absurd (h.0 refl))
events_iff (event ∷ events) f i =
    let each = check_events-eq-nil 0 (event ∷ events) in
    ((λ e. ((λ p. cc p), each.0 e)), λ h. each.1 h.1)

secret_length : (t : Text) → ((not (text_eq t (txt "")) && ltb 255 (len t)) ≡ false) ↔ (len t ≤ 255)
unfolding text_eq txt len
secret_length [] = (λ _. omega arith, λ _. refl)
secret_length (c ∷ t) = ground arith

secret_iff :
    (P : Platform) (o : Option Text)
    → (given_and
          (λ secret.
            not (text_eq (trim_space secret) (txt "")) && ltb 255 (len (trim_space secret)))
          o
        ≡ false)
      ↔ SecretIsValid P o
secret_iff P none = (λ _ a e. cc, λ _. refl)
secret_iff P (some s) =
    let length = secret_length (trim_space s) in
    ((λ h b e. let same : s ≡ b = cc e in rw (← same) (length.0 h)), (λ h. length.1 (h s refl)))

target_iff : (P : Platform) (url : Text) → (check_target_url P url ≡ []) ↔ TargetIsValid P url
unfolding check_target_url report_if text_eq txt
target_iff P [] = (λ e. cc, λ h. absurd (h.0 refl))
target_iff P (c ∷ url) = (λ e. ((λ p. cc p), ground arith, ground arith), λ h. ground arith)

-- ValidateWebhookSubscriptionInput accepts exactly a valid http(s) target of at most 1024 bytes,
-- a list of known events that is not empty, and a secret of at most 255 bytes.
pub validate_webhook_subscription_input-eq-nil :
    (P : Platform) (target : Text) (events : List Text) (secret : Option Text)
    → (validate_webhook_subscription_input P target events secret ≡ []) ↔ (
        TargetIsValid P (trim_space target)
        × (((events ≢ []) × All EventIsValid events) × SecretIsValid P secret))
unfolding validate_webhook_subscription_input
validate_webhook_subscription_input-eq-nil P target events secret =
    reports-eq-nil (target_iff P (trim_space target))
      (reports-eq-nil (events_iff events _ _) (when_iff _ _ (secret_iff P secret)))
