-- ===== src/Domain/CustomFields/Acceptance.antt =====
-- When ValidateCustomFields accepts.
use job_board.Prelude.{
  ℕ, ◌+◌, ◌≡◌, refl, ◌≢◌, ◌↔◌, inl, inr, true, false, List, [], ◌∷◌, arith, Bool-cases, All, any,
  append-eq-nil_iff,
}
use job_board.Text.{Text, txt, text_eq, trim_space}
use job_board.Text.Equality.{text_eq_sound, text_eq_refl, blank-eq-false}
use job_board.Domain.Types.{CustomField}
use job_board.Domain.Values.{Platform}
use job_board.Domain.Formats.{matches_field_id, one_of}
use job_board.Domain.Report.{report_if-eq-nil, reports-eq-nil}
use job_board.Domain.CustomFields.{
  prefix_at, check_id, check_options, check_field_type, check_fields, validate_custom_fields,
  field_types, FieldIsValid, IdsAreNew,
}

check_options-eq-nil :
    (pre : Text) (i : ℕ) (opts : List Text)
    → (check_options pre i opts ≡ []) ↔ All (λ opt. trim_space opt ≢ []) opts
unfolding check_options
check_options-eq-nil pre i [] = (λ _. tt, λ _. refl)
check_options-eq-nil pre i (opt ∷ opts) =
    reports-eq-nil
      (
        (λ e. (blank-eq-false (trim_space opt)).0 ((report_if-eq-nil _ _ _).0 e)),
        (λ n. (report_if-eq-nil _ _ _).1 ((blank-eq-false (trim_space opt)).1 n)),
      )
      (check_options-eq-nil pre (i + 1) opts)

check_id-eq-nil :
    (pre id : Text) (seen : List Text)
    → ((check_id pre id seen).0 ≡ [])
      ↔ ((id ≢ []) × (matches_field_id id ≡ true) × (any (text_eq id) seen ≡ false))
unfolding check_id
check_id-eq-nil pre id seen = (
  (λ e. ((blank-eq-false id).0 (ground arith), ground arith, ground arith)),
  (λ h. let given = (blank-eq-false id).1 h.0 in ground arith),
)

check_id-seen :
    (pre id : Text) (seen : List Text)
    → (check_id pre id seen).0 ≡ []
    → (check_id pre id seen).1 ≡ id ∷ seen
unfolding check_id
check_id-seen pre id seen h = ground arith

abbrev OptionsGiven : Text → List Text → Type 0
OptionsGiven type options =
    type ≡ txt "select" → (options ≢ []) × All (λ opt. trim_space opt ≢ []) options

check_field_type_sound :
    (pre type : Text) (options : List Text)
    → check_field_type pre type options ≡ []
    → (one_of field_types type ≡ true) × OptionsGiven type options
unfolding check_field_type
check_field_type_sound pre type [] h =
    (ground arith, λ s. ground (arith, text_eq_refl (txt "select")))
check_field_type_sound pre type (opt ∷ opts) h = (
  ground arith,
  λ s. (
    λ p. cc p,
    (check_options-eq-nil pre 0 (opt ∷ opts)).0 (ground (arith, text_eq_refl (txt "select"))),
  ),
)

check_field_type_complete :
    (pre type : Text) (options : List Text)
    → (one_of field_types type ≡ true) × OptionsGiven type options
    → check_field_type pre type options ≡ []
unfolding check_field_type
check_field_type_complete pre type options (known, given) =
    elim (Bool-cases (text_eq type (txt "select"))) [
      | inl select ↦ selected options (given (text_eq_sound type (txt "select") select)) select
      | inr other ↦ ground arith
    ]
  where
    selected :
        (options : List Text)
        → (options ≢ []) × All (λ opt. trim_space opt ≢ []) options
        → text_eq type (txt "select") ≡ true
        → check_field_type pre type options ≡ []
    selected [] h e = absurd (h.0 refl)
    selected (opt ∷ opts) h e =
        let fine = (check_options-eq-nil pre 0 (opt ∷ opts)).1 h.1 in ground arith

module _ (P : Platform) where
  check_fields_sound :
      (i : ℕ) (seen : List Text) (fields : List CustomField)
      → check_fields P i seen fields ≡ []
      → All (FieldIsValid P) fields × IdsAreNew seen fields
  unfolding check_fields
  check_fields_sound i seen [] h = (tt, tt)
  check_fields_sound i seen (field ∷ fields) h =
      let (id_fine, rest₁) = (append-eq-nil_iff _ _).0 h in
      let (label_fine, rest₂) = (append-eq-nil_iff _ _).0 rest₁ in
      let (type_fine, rest₃) = (append-eq-nil_iff _ _).0 rest₂ in
      let (given, plain, new) = (check_id-eq-nil _ (trim_space field.id) seen).0 id_fine in
      let (known, options) = check_field_type_sound _ _ field.options type_fine in
      let (later, ids) =
        check_fields_sound (i + 1) (trim_space field.id ∷ seen) fields
          (rw (check_id-seen _ _ seen id_fine) at rest₃) in
      (
        (
          record {
            id_given = given;
            id_plain = plain;
            label_given =
                (blank-eq-false (trim_space field.label)).0 ((report_if-eq-nil _ _ _).0 label_fine);
            type_known = known;
            options_given = options;
          },
          later,
        ),
        (new, ids),
      )

  check_fields_complete :
      (i : ℕ) (seen : List Text) (fields : List CustomField)
      → All (FieldIsValid P) fields × IdsAreNew seen fields
      → check_fields P i seen fields ≡ []
  unfolding check_fields
  check_fields_complete i seen [] h = refl
  check_fields_complete i seen (field ∷ fields) ((v, later), (new, ids)) =
      let id_fine =
        (check_id-eq-nil (prefix_at i) (trim_space field.id) seen).1
          (v.id_given, v.id_plain, new) in
      (append-eq-nil_iff _ _).1 (
        id_fine,
        (append-eq-nil_iff _ _).1 (
          (report_if-eq-nil _ _ _).1 ((blank-eq-false (trim_space field.label)).1 v.label_given),
          (append-eq-nil_iff _ _).1 (
            check_field_type_complete _ _ field.options (v.type_known, v.options_given),
            rw (check_id-seen (prefix_at i) (trim_space field.id) seen id_fine)
                (check_fields_complete (i + 1) (trim_space field.id ∷ seen) fields (later, ids)),
          ),
        ),
      )

  -- ValidateCustomFields accepts exactly the lists of well-formed fields whose trimmed ids differ.
  pub validate_custom_fields-eq-nil :
      (fields : List CustomField)
      → (validate_custom_fields P fields ≡ []) ↔ (All (FieldIsValid P) fields × IdsAreNew [] fields)
  unfolding validate_custom_fields
  validate_custom_fields-eq-nil fields =
      (check_fields_sound 0 [] fields, check_fields_complete 0 [] fields)
