-- ===== src/Domain/Answers.antt =====
-- internal/domain/validation.go: ValidateCustomAnswers, and when it accepts. `answers` is the map
-- of the custom answers, a nil map being the empty one.
use job_board.Prelude.{
  ◌≡◌, refl, ◌≢◌, ◌↔◌, inl, inr, Bool, true, false, not, ◌&&◌, ◌||◌, List, [], ◌∷◌, ◌++◌, Option,
  none, some, arith, if◌then◌else◌, Bool-cases, is_empty, All,
}
use job_board.Text.{Text, txt, text_eq, to_lower, join}
use job_board.Text.Equality.{text_eq_sound, text_eq_refl}
use job_board.Domain.Types.{ErrorDetail, CustomField}
use job_board.Domain.Values.{
  Platform, Value, null, is_empty_value, is_valid_number, is_valid_url, is_valid_boolean,
  is_valid_option,
}
use job_board.Domain.Report.{report, report_if, reports-eq-nil}

abbrev pub Answers : Type 0
Answers = List (Text × Value)

unfoldable pub lookup : Text → Answers → Option Value
lookup key [] = none
lookup key ((k, v) ∷ answers) = if text_eq k key then some v else lookup key answers

abbrev is_null : Value → Bool
is_null null = true
is_null _ = false

-- `!exists || val == nil || IsEmptyValue(val)`
unfoldable pub missing : Option Value → Bool
missing none = true
missing (some v) = is_null v || is_empty_value v

types_differ :
    (text_eq (txt "url") (txt "number") ≡ false)
    × (text_eq (txt "boolean") (txt "number") ≡ false)
    × (text_eq (txt "boolean") (txt "url") ≡ false)
    × (text_eq (txt "select") (txt "number") ≡ false)
    × (text_eq (txt "select") (txt "url") ≡ false)
    × (text_eq (txt "select") (txt "boolean") ≡ false)
unfolding txt text_eq
types_differ = (refl, refl, refl, refl, refl, refl)

module _ (P : Platform) where
  -- The switch on `strings.ToLower(field.Type)`, at the lowered type `t`.
  unfoldable pub check_type : Text → Text → CustomField → Value → List ErrorDetail
  check_type t key field val =
      if text_eq t (txt "number")
      then report_if (not (is_valid_number P val)) key
          (field.label ++ txt " must be a valid number")
      else if text_eq t (txt "url")
      then report_if (not (is_valid_url P val)) key (field.label ++ txt " must be a valid URL")
      else if text_eq t (txt "boolean")
      then report_if (not (is_valid_boolean P val)) key (field.label ++ txt " must be a boolean")
      else if text_eq t (txt "select")
      then report_if (not (is_empty field.options) && not (is_valid_option P val field.options)) key
          (field.label ++ (txt " must be one of: " ++ join (txt ", ") field.options))
      else []

  abbrev check_present : Text → CustomField → Option Value → List ErrorDetail
  check_present key field none = []
  check_present key field (some val) = check_type (to_lower P.lower_rune field.type) key field val

  -- One round of the loop.
  unfoldable pub check_answer : CustomField → Option Value → List ErrorDetail
  check_answer field val =
      let key = txt "custom_answers." ++ field.id in
      if field.required && missing val
      then report key (field.label ++ txt " is required")
      else if not (missing val)
      then check_present key field val
      else []

  -- `ValidateCustomAnswers`
  unfoldable pub validate_custom_answers : List CustomField → Answers → List ErrorDetail
  unfolding check_answer check_type lookup
  validate_custom_answers [] answers = []
  validate_custom_answers (field ∷ fields) answers =
      check_answer field (lookup field.id answers) ++ validate_custom_answers fields answers

  -- What the type of a field, lowered, asks of a value.
  pub record Fits (t : Text) (options : List Text) (val : Value) : Type 0 where
    pub as_number : t ≡ txt "number" → is_valid_number P val ≡ true
    pub as_url : t ≡ txt "url" → is_valid_url P val ≡ true
    pub as_boolean : t ≡ txt "boolean" → is_valid_boolean P val ≡ true
    pub as_select : t ≡ txt "select" → options ≢ [] → is_valid_option P val options ≡ true

  -- A required field is answered, and an answer that is not empty fits the field's type.
  pub record Satisfies (answer : Option Value) (field : CustomField) : Type 0 where
    pub answered : field.required ≡ true → missing answer ≡ false
    pub fits :
        (val : Value)
        → answer ≡ some val
        → missing (some val) ≡ false
        → Fits (to_lower P.lower_rune field.type) field.options val

  abbrev pub AnswerIsValid : Answers → CustomField → Type 0
  AnswerIsValid answers field = Satisfies (lookup field.id answers) field

  check_type_sound :
      (t key : Text) (field : CustomField) (val : Value)
      → check_type t key field val ≡ []
      → Fits t field.options val
  unfolding check_type report_if
  check_type_sound t key field val h = record {
    as_number = λ e. ground (arith, text_eq_refl (txt "number"));
    as_url = λ e. ground (arith, text_eq_refl (txt "url"), types_differ);
    as_boolean = λ e. ground (arith, text_eq_refl (txt "boolean"), types_differ);
    as_select = λ e ne. ground (arith, text_eq_refl (txt "select"), types_differ);
  }

  check_type_complete :
      (t key : Text) (field : CustomField) (val : Value)
      → Fits t field.options val
      → check_type t key field val ≡ []
  unfolding check_type report_if
  check_type_complete t key field val h = ground (
    arith,
    text_eq_sound t (txt "number"),
    text_eq_sound t (txt "url"),
    text_eq_sound t (txt "boolean"),
    text_eq_sound t (txt "select"),
  )

  check_answer_sound :
      (o : Option Value) (field : CustomField) → check_answer field o ≡ [] → Satisfies o field
  unfolding check_answer missing
  check_answer_sound none field h = record { answered = λ r. ground arith; fits = λ v e m. cc }
  check_answer_sound (some val) field h = record {
    answered = λ r. ground arith;
    fits = λ v e m.
        let same : val ≡ v = cc e in
        rw (← same)
          (check_type_sound _ (txt "custom_answers." ++ field.id) field val (ground arith));
  }

  check_answer_complete :
      (o : Option Value) (field : CustomField) → Satisfies o field → check_answer field o ≡ []
  unfolding check_answer missing
  check_answer_complete none field h = ground arith
  check_answer_complete (some val) field h = elim (Bool-cases (missing (some val))) [
    | inl m ↦ ground arith
    | inr m ↦
        let good =
          check_type_complete _ (txt "custom_answers." ++ field.id) field val (h.fits val refl m) in
        ground arith
  ]

  -- ValidateCustomAnswers accepts exactly when every required field is answered and every answer that
  -- is not empty fits the type of its field.
  pub validate_custom_answers-eq-nil :
      (fields : List CustomField) (answers : Answers)
      → (validate_custom_answers fields answers ≡ []) ↔ All (AnswerIsValid answers) fields
  unfolding validate_custom_answers
  validate_custom_answers-eq-nil [] answers = (λ _. tt, λ _. refl)
  validate_custom_answers-eq-nil (field ∷ fields) answers =
      reports-eq-nil (check_answer_sound _ field, check_answer_complete _ field)
        (validate_custom_answers-eq-nil fields answers)
