-- ===== src/Domain/Candidate.antt =====
-- internal/domain/validation.go: ValidateCandidateInput, and when it accepts.
use job_board.Prelude.{
  ◌≤◌, ◌≡◌, refl, ◌≢◌, ◌↔◌, Bool, true, not, ◌&&◌, List, [], ◌∷◌, ◌++◌, Option, none, some, ltb,
  arith, if◌then◌else◌,
}
use job_board.Text.{Text, txt, text_eq, len, trim_space}
use job_board.Domain.Types.{ErrorDetail}
use job_board.Domain.Values.{Platform, str, is_valid_url}
use job_board.Domain.Formats.{is_valid_email}
use job_board.Domain.Report.{
  report, report_if, required_within, required_within-eq-nil, reports-eq-nil,
}

phone-eq-nil :
    (p field issue : Text)
    → (report_if (not (text_eq p (txt "")) && ltb 50 (len p)) field issue ≡ []) ↔ (len p ≤ 50)
unfolding report_if txt text_eq
phone-eq-nil [] field issue = (λ _. unfold len in omega arith, λ _. refl)
phone-eq-nil (c ∷ p) field issue = (λ e. ground arith, λ h. ground arith)

linkedin-eq-nil :
    (u f₁ i₁ f₂ i₂ : Text) (valid : Bool)
    → ((if text_eq u (txt "")
          then []
          else if ltb 500 (len u)
          then report f₁ i₁
          else if not valid
          then report f₂ i₂
          else [])
        ≡ [])
      ↔ (u ≢ [] → (len u ≤ 500) × (valid ≡ true))
unfolding txt text_eq
linkedin-eq-nil [] f₁ i₁ f₂ i₂ valid = (λ _ n. absurd (n refl), λ _. refl)
linkedin-eq-nil (c ∷ u) f₁ i₁ f₂ i₂ valid =
    ((λ e n. ground arith), λ h. let both = h (λ p. cc p) in ground arith)

module _ (P : Platform) where
  check_email : Text → List ErrorDetail
  check_email trimmed_email =
      if text_eq trimmed_email (txt "")
      then report (txt "candidate_email") (txt "Candidate email is required")
      else if ltb 255 (len trimmed_email)
      then report (txt "candidate_email") (txt "Candidate email cannot exceed 255 characters")
      else if not (is_valid_email P trimmed_email)
      then report (txt "candidate_email") (txt "Candidate email must be a valid email address")
      else []

  check_phone : Option Text → List ErrorDetail
  check_phone none = []
  check_phone (some phone) =
      let p = trim_space phone in
      report_if (not (text_eq p (txt "")) && ltb 50 (len p)) (txt "candidate_phone")
        (txt "Candidate phone cannot exceed 50 characters")

  check_linkedin : Option Text → List ErrorDetail
  check_linkedin none = []
  check_linkedin (some linkedin_url) =
      let u = trim_space linkedin_url in
      if text_eq u (txt "")
      then []
      else if ltb 500 (len u)
      then report (txt "linkedin_url") (txt "LinkedIn URL cannot exceed 500 characters")
      else if not (is_valid_url P (str u))
      then report (txt "linkedin_url") (txt "LinkedIn URL must be a valid URL")
      else []

  -- `ValidateCandidateInput`
  unfoldable pub validate_candidate_input :
      Text → Text → Option Text → Option Text → List ErrorDetail
  unfolding check_email check_phone check_linkedin
  validate_candidate_input name email phone linkedin_url =
      required_within 255 (trim_space name) (txt "candidate_name")
        (txt "Candidate name is required") (txt "Candidate name cannot exceed 255 characters")
      ++ (check_email (trim_space email) ++ (check_phone phone ++ check_linkedin linkedin_url))

  abbrev pub EmailIsValid : Text → Type 0
  EmailIsValid email = (email ≢ []) × (len email ≤ 255) × (is_valid_email P email ≡ true)

  abbrev pub PhoneIsValid : Option Text → Type 0
  PhoneIsValid none = Unit
  PhoneIsValid (some phone) = len (trim_space phone) ≤ 50

  abbrev pub LinkedinIsValid : Option Text → Type 0
  LinkedinIsValid none = Unit
  LinkedinIsValid (some url) =
      trim_space url ≢ []
      → (len (trim_space url) ≤ 500) × (is_valid_url P (str (trim_space url)) ≡ true)

  check_email-eq-nil : (email : Text) → (check_email email ≡ []) ↔ EmailIsValid email
  unfolding check_email txt text_eq
  check_email-eq-nil [] = (λ e. cc, λ h. absurd (h.0 refl))
  check_email-eq-nil (c ∷ s) = ((λ e. ((λ p. cc p), ground arith, ground arith)), λ h. ground arith)

  check_phone-eq-nil : (phone : Option Text) → (check_phone phone ≡ []) ↔ PhoneIsValid phone
  unfolding check_phone
  check_phone-eq-nil none = (λ _. tt, λ _. refl)
  check_phone-eq-nil (some phone) = phone-eq-nil (trim_space phone) _ _

  check_linkedin-eq-nil : (url : Option Text) → (check_linkedin url ≡ []) ↔ LinkedinIsValid url
  unfolding check_linkedin
  check_linkedin-eq-nil none = (λ _. tt, λ _. refl)
  check_linkedin-eq-nil (some url) = linkedin-eq-nil (trim_space url) _ _ _ _ _

  -- ValidateCandidateInput accepts exactly when the trimmed name is there and has at most 255 bytes,
  -- the trimmed email is a valid address of at most 255, and the phone and the link are in bounds.
  pub validate_candidate_input-eq-nil :
      (name email : Text) (phone linkedin_url : Option Text)
      → (validate_candidate_input name email phone linkedin_url ≡ []) ↔ (
          ((trim_space name ≢ []) × (len (trim_space name) ≤ 255))
          × (EmailIsValid (trim_space email) × (PhoneIsValid phone × LinkedinIsValid linkedin_url)))
  unfolding validate_candidate_input
  validate_candidate_input-eq-nil name email phone linkedin_url =
      reports-eq-nil (required_within-eq-nil 255 (trim_space name) _ _ _) (
        reports-eq-nil (check_email-eq-nil (trim_space email))
          (reports-eq-nil (check_phone-eq-nil phone) (check_linkedin-eq-nil linkedin_url)))
