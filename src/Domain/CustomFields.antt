-- ===== src/Domain/CustomFields.antt =====
-- internal/domain/validation.go: ValidateCustomFields, and when it accepts.
pub mod Acceptance
use job_board.Prelude.{
  ℕ, ◌+◌, ◌≡◌, refl, ◌≢◌, ◌↔◌, ◌⊎◌, inl, inr, Bool, true, false, not, ◌&&◌, ◌||◌, List, [], ◌∷◌,
  ◌++◌, arith, if◌then◌else◌, Bool-cases, is_empty, All, any, length,
}
use job_board.Text.{Text, txt, text_eq, trim_space, to_lower}
use job_board.Text.Decimal.{itoa}
use job_board.Text.Equality.{text_eq_sound, text_eq_refl}
use job_board.Domain.Types.{ErrorDetail, CustomField}
use job_board.Domain.Values.{Platform}
use job_board.Domain.Formats.{matches_field_id, one_of}
use job_board.Domain.Report.{report, report_if, report_if-eq-nil, reports-eq-nil}

abbrev pub field_types : List Text
field_types =
    txt "text" ∷ txt "number" ∷ txt "url" ∷ txt "select" ∷ txt "textarea" ∷ txt "boolean" ∷ []

-- `custom_fields[%d]`
abbrev prefix_at : ℕ → Text
prefix_at i = txt "custom_fields[" ++ (itoa i ++ txt "]")

-- The report on an id, and the ids seen after it.
unfoldable pub check_id : Text → Text → List Text → List ErrorDetail × List Text
check_id pre id seen =
    if text_eq id (txt "")
    then (report (pre ++ txt ".id") (txt "Custom field id is required"), seen)
    else if not (matches_field_id id)
    then (
      report (pre ++ txt ".id") (
          txt "Custom field id must contain only alphanumeric characters, underscores, or hyphens"),
      seen,
    )
    else if any (text_eq id) seen
    then (report (pre ++ txt ".id") (txt "Duplicate custom field id: " ++ id), seen)
    else ([], id ∷ seen)

-- The loop over the options, from option number `i`.
unfoldable pub check_options : Text → ℕ → List Text → List ErrorDetail
check_options pre i [] = []
check_options pre i (opt ∷ opts) =
    report_if (text_eq (trim_space opt) (txt "")) (pre ++ (txt ".options[" ++ (itoa i ++ txt "]")))
      (txt "Option value cannot be blank")
    ++ check_options pre (i + 1) opts

-- The switch on the field's type, trimmed and lowered.
unfoldable pub check_field_type : Text → Text → List Text → List ErrorDetail
unfolding check_options
check_field_type pre type options =
    if one_of field_types type
    then (if text_eq type (txt "select")
        then (if is_empty options
            then report (pre ++ txt ".options")
                (txt "Custom field of type 'select' must have at least one option")
            else check_options pre 0 options)
        else [])
    else report (pre ++ txt ".type")
        (txt "Invalid field type. Must be one of: text, number, url, select, textarea, boolean")

module _ (P : Platform) where
  -- The loop from field number `i`, with the ids seen so far.
  unfoldable pub check_fields : ℕ → List Text → List CustomField → List ErrorDetail
  check_fields i seen [] = []
  check_fields i seen (field ∷ fields) =
      let pre = prefix_at i in
      let (details, seen') = check_id pre (trim_space field.id) seen in
      details
      ++ (report_if (text_eq (trim_space field.label) (txt "")) (pre ++ txt ".label")
            (txt "Custom field label is required")
          ++ (check_field_type pre (to_lower P.lower_rune (trim_space field.type)) field.options
              ++ check_fields (i + 1) seen' fields))

  -- `ValidateCustomFields`
  unfoldable pub validate_custom_fields : List CustomField → List ErrorDetail
  unfolding check_fields check_id check_field_type
  validate_custom_fields fields = check_fields 0 [] fields

  pub record FieldIsValid (field : CustomField) : Type 0 where
    pub id_given : trim_space field.id ≢ []
    pub id_plain : matches_field_id (trim_space field.id) ≡ true
    pub label_given : trim_space field.label ≢ []
    pub type_known : one_of field_types (to_lower P.lower_rune (trim_space field.type)) ≡ true
    pub options_given :
        to_lower P.lower_rune (trim_space field.type) ≡ txt "select"
        → (field.options ≢ []) × All (λ opt. trim_space opt ≢ []) field.options

-- The trimmed ids are new to `seen` and differ from one another.
abbrev pub IdsAreNew : List Text → List CustomField → Type 0
IdsAreNew seen [] = Unit
IdsAreNew seen (field ∷ fields) =
    (any (text_eq (trim_space field.id)) seen ≡ false)
    × IdsAreNew (trim_space field.id ∷ seen) fields
