-- ===== src/Domain/JobInput/Acceptance.antt =====
-- When ValidateJobInput accepts.
use job_board.Prelude.{
  ℕ, ◌≤◌, ◌≡◌, refl, ◌≢◌, ◌↔◌, Bool, false, not, ◌&&◌, [], ◌∷◌, Option, none, some, ltb, arith,
}
use job_board.Text.{Text, txt, text_eq, len, trim_space}
use job_board.Domain.Types.{Float64}
use job_board.Domain.Values.{Platform}
use job_board.Domain.CustomFields.Acceptance.{validate_custom_fields-eq-nil}
use job_board.Domain.JobInput.{
  JobInput, job_checks, validate_job_input, JobIsValid, negative, both_given_and,
}
use job_board.Domain.Report.{
  required_within-eq-nil, reports-all, given_and, given_and-eq-false, unless_empty, blank_iff,
  when_iff,
}

ltb-eq-false : (a b : ℕ) → (ltb a b ≡ false) ↔ (b ≤ a)
ltb-eq-false a b = ground arith

both_given-eq-false :
    (test : Float64 → Float64 → Bool) (o p : Option Float64)
    → (both_given_and test o p ≡ false)
      ↔ ((a b : Float64) → o ≡ some a → p ≡ some b → test a b ≡ false)
both_given-eq-false test none p = (λ _ a b e f. cc, λ _. refl)
both_given-eq-false test (some a) none = (λ _ a b e f. cc, λ _. refl)
both_given-eq-false test (some a) (some b) = (λ h x y e f. cc, λ h. h a b refl refl)

currency_iff :
    (s : Text) (n : ℕ) → ((not (text_eq s (txt "")) && ltb 3 n) ≡ false) ↔ (s ≢ [] → n ≤ 3)
unfolding text_eq txt
currency_iff [] n = (λ _ e. absurd (e refl), λ _. refl)
currency_iff (c ∷ s) n = (λ e m. ground arith, λ h. let v = h (λ p. cc p) in ground arith)

level_iff :
    (o : Option Text)
    → (given_and (λ level. ltb 50 (len (trim_space level))) o ≡ false)
      ↔ ((level : Text) → o ≡ some level → len (trim_space level) ≤ 50)
level_iff none = (λ _ a e. cc, λ _. refl)
level_iff (some level) = (λ h b e. ground arith, λ h. let short = h level refl in ground arith)

module _ (P : Platform) where
  validate_job_input_sound : (i : JobInput) → validate_job_input P i ≡ [] → JobIsValid P i
  unfolding validate_job_input
  validate_job_input_sound i e =
      let h = (reports-all (job_checks P i)).0 e in
      let after_text = h.1.1.1.1 in
      let after_level = after_text.1.1.1 in
      let after_salary = after_level.1.1.1.1 in
      record {
        title = (required_within-eq-nil 255 _ _ _ _).0 h.0;
        department = (required_within-eq-nil 100 _ _ _ _).0 h.1.0;
        location = (required_within-eq-nil 150 _ _ _ _).0 h.1.1.0;
        description = (blank_iff _ _ _).0 h.1.1.1.0;
        emp_type = (when_iff _ _ (unless_empty i.emp_type _)).0 after_text.0;
        status = (when_iff _ _ (unless_empty i.status _)).0 after_text.1.0;
        level = (when_iff _ _ (level_iff i.experience_level)).0 after_text.1.1.0;
        currency = (when_iff _ _ (currency_iff i.salary_currency _)).0 after_level.0;
        min_nonneg = (when_iff _ _ (given_and-eq-false negative i.salary_min)).0 after_level.1.0;
        max_nonneg = (when_iff _ _ (given_and-eq-false negative i.salary_max)).0 after_level.1.1.0;
        ordered =
            (when_iff _ _ (both_given-eq-false _ i.salary_min i.salary_max)).0 after_level.1.1.1.0;
        slug = (when_iff _ _ (unless_empty i.slug _)).0 after_salary.0;
        custom_fields = (validate_custom_fields-eq-nil P i.custom_fields).0 after_salary.1.0;
      }

  validate_job_input_complete : (i : JobInput) → JobIsValid P i → validate_job_input P i ≡ []
  unfolding validate_job_input
  validate_job_input_complete i v = (reports-all (job_checks P i)).1 (
    (required_within-eq-nil 255 _ _ _ _).1 v.title,
    (
      (required_within-eq-nil 100 _ _ _ _).1 v.department,
      (
        (required_within-eq-nil 150 _ _ _ _).1 v.location,
        (
          (blank_iff _ _ _).1 v.description,
          (
            (when_iff _ _ (unless_empty i.emp_type _)).1 v.emp_type,
            (
              (when_iff _ _ (unless_empty i.status _)).1 v.status,
              (
                (when_iff _ _ (level_iff i.experience_level)).1 v.level,
                (
                  (when_iff _ _ (currency_iff i.salary_currency _)).1 v.currency,
                  (
                    (when_iff _ _ (given_and-eq-false negative i.salary_min)).1 v.min_nonneg,
                    (
                      (when_iff _ _ (given_and-eq-false negative i.salary_max)).1 v.max_nonneg,
                      (
                        (when_iff _ _ (both_given-eq-false _ i.salary_min i.salary_max)).1
                            v.ordered,
                        (
                          (when_iff _ _ (unless_empty i.slug _)).1 v.slug,
                          ((validate_custom_fields-eq-nil P i.custom_fields).1 v.custom_fields, tt),
                        ),
                      ),
                    ),
                  ),
                ),
              ),
            ),
          ),
        ),
      ),
    ),
  )

  -- ValidateJobInput accepts exactly the attributes that are valid.
  pub validate_job_input-eq-nil : (i : JobInput) → (validate_job_input P i ≡ []) ↔ JobIsValid P i
  validate_job_input-eq-nil i = (validate_job_input_sound i, validate_job_input_complete i)
