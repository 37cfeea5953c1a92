-- ===== src/Domain/JobInput.antt =====
-- internal/domain/validation.go: ValidateJobInput, and when it accepts. Its twelve arguments are
-- the fields of a record.
pub mod Acceptance
use job_board.Prelude.{
  ℕ, ◌≤◌, ◌≡◌, refl, ◌≢◌, ◌↔◌, ◌⊎◌, inl, inr, Bool, true, false, not, ◌&&◌, List, [], ◌∷◌, ◌++◌,
  Option, none, some, ltb, arith, if◌then◌else◌, is_empty, All,
}
use job_board.Prelude.Int.{ℤ, pos, ltb_ℤ}
use job_board.Text.{Text, txt, text_eq, len, trim_space}
use job_board.Text.Equality.{text_eq_iff}
use job_board.Domain.Types.{ErrorDetail, Float64, JobStatus, EmploymentType, CustomField}
use job_board.Domain.Values.{Platform}
use job_board.Domain.Formats.{is_valid_employment_type, is_valid_job_status}
use job_board.Domain.Slug.{is_valid_slug}
use job_board.Domain.CustomFields.{validate_custom_fields, FieldIsValid, IdsAreNew}
use job_board.Domain.CustomFields.Acceptance.{validate_custom_fields-eq-nil}
use job_board.Domain.Report.{
  report, report_if, required_within, report_if-eq-nil, required_within-eq-nil, reports, given_and,
}

pub record JobInput : Type 0 where
  pub title : Text
  pub department : Text
  pub location : Text
  pub description_markdown : Text
  pub emp_type : EmploymentType
  pub status : JobStatus
  pub experience_level : Option Text
  pub salary_min : Option Float64
  pub salary_max : Option Float64
  pub salary_currency : Text
  pub slug : Text
  pub custom_fields : List CustomField

abbrev pub both_given_and {ℓ} : {A : Type ℓ} → (A → A → Bool) → Option A → Option A → Bool
both_given_and test (some a) (some b) = test a b
both_given_and test _ _ = false

abbrev pub negative : Float64 → Bool
negative x = ltb_ℤ x (pos 0)

module _ (P : Platform) where
  -- The checks of `ValidateJobInput`, in its order.
  unfoldable pub job_checks : JobInput → List (List ErrorDetail)
  job_checks i =
      required_within 255 (trim_space i.title) (txt "title") (txt "Title is required")
        (txt "Title cannot exceed 255 characters")
      ∷ required_within 100 (trim_space i.department) (txt "department")
          (txt "Department is required") (txt "Department cannot exceed 100 characters")
      ∷ required_within 150 (trim_space i.location) (txt "location") (txt "Location is required")
          (txt "Location cannot exceed 150 characters")
      ∷ report_if (text_eq (trim_space i.description_markdown) (txt ""))
          (txt "description_markdown") (txt "Description markdown is required")
      ∷ report_if (not (text_eq i.emp_type (txt "")) && not (is_valid_employment_type i.emp_type))
          (txt "employment_type")
          (txt
            "Invalid employment_type. Must be one of: full_time, part_time, contract, internship")
      ∷ report_if (not (text_eq i.status (txt "")) && not (is_valid_job_status i.status))
          (txt "status") (txt "Invalid status. Must be one of: draft, published, archived")
      ∷ report_if (given_and (λ level. ltb 50 (len (trim_space level))) i.experience_level)
          (txt "experience_level") (txt "Experience level cannot exceed 50 characters")
      ∷ report_if
          (not (text_eq i.salary_currency (txt "")) && ltb 3 (len (trim_space i.salary_currency)))
          (txt "salary_currency") (txt "Salary currency code cannot exceed 3 characters")
      ∷ report_if (given_and negative i.salary_min) (txt "salary_min")
          (txt "Salary min must be greater than or equal to 0")
      ∷ report_if (given_and negative i.salary_max) (txt "salary_max")
          (txt "Salary max must be greater than or equal to 0")
      ∷ report_if (both_given_and (λ low high. ltb_ℤ high low) i.salary_min i.salary_max)
          (txt "salary_min") (txt "Salary min cannot exceed salary max")
      ∷ report_if (not (text_eq i.slug (txt "")) && not (is_valid_slug i.slug)) (txt "slug")
          (txt "Slug must be a URL-safe lowercase alphanumeric string with hyphens (max 255 chars)")
      ∷ validate_custom_fields P i.custom_fields
      ∷ []

  -- `ValidateJobInput`
  unfoldable pub validate_job_input : JobInput → List ErrorDetail
  unfolding job_checks
  validate_job_input i = reports (job_checks i)

  -- What is asked of the attributes of a job, in the words of the columns that store them.
  pub record JobIsValid (i : JobInput) : Type 0 where
    pub title : (trim_space i.title ≢ []) × (len (trim_space i.title) ≤ 255)
    pub department : (trim_space i.department ≢ []) × (len (trim_space i.department) ≤ 100)
    pub location : (trim_space i.location ≢ []) × (len (trim_space i.location) ≤ 150)
    pub description : trim_space i.description_markdown ≢ []
    pub emp_type : i.emp_type ≢ [] → is_valid_employment_type i.emp_type ≡ true
    pub status : i.status ≢ [] → is_valid_job_status i.status ≡ true
    pub level : (level : Text) → i.experience_level ≡ some level → len (trim_space level) ≤ 50
    pub currency : i.salary_currency ≢ [] → len (trim_space i.salary_currency) ≤ 3
    pub min_nonneg : (x : Float64) → i.salary_min ≡ some x → negative x ≡ false
    pub max_nonneg : (x : Float64) → i.salary_max ≡ some x → negative x ≡ false
    pub ordered :
        (low high : Float64)
        → i.salary_min ≡ some low
        → i.salary_max ≡ some high
        → ltb_ℤ high low ≡ false
    pub slug : i.slug ≢ [] → is_valid_slug i.slug ≡ true
    pub custom_fields : All (FieldIsValid P) i.custom_fields × IdsAreNew [] i.custom_fields
