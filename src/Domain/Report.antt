-- ===== src/Domain/Report.antt =====
-- How the validators report: `details = append(details, …)` under a test, and when nothing is.
use job_board.Prelude.{
  All, Option, none, some, not, ◌&&◌, ℕ, ◌≤◌, ◌≡◌, refl, ◌≢◌, ◌↔◌, Bool, true, false, List, [], ◌∷◌,
  ltb, arith, if◌then◌else◌, ◌++◌, append-eq-nil_iff,
}
use job_board.Text.{Text, txt, text_eq, len}
use job_board.Text.Equality.{blank-eq-false}
use job_board.Domain.Types.{ErrorDetail}

abbrev pub report : Text → Text → List ErrorDetail
report field issue = record { field = field; issue = issue } ∷ []

unfoldable pub report_if : Bool → Text → Text → List ErrorDetail
report_if failed field issue = if failed then report field issue else []

-- `if t == "" { required } else if len(t) > most { too long }`
unfoldable pub required_within : ℕ → Text → Text → Text → Text → List ErrorDetail
required_within most t field required too_long =
    if text_eq t (txt "")
    then report field required
    else if ltb most (len t)
    then report field too_long
    else []

pub report_if-eq-nil :
    (failed : Bool) (field issue : Text) → (report_if failed field issue ≡ []) ↔ (failed ≡ false)
unfolding report_if
report_if-eq-nil true field issue = (λ e. cc, λ e. cc)
report_if-eq-nil false field issue = (λ _. refl, λ _. refl)

pub required_within-eq-nil :
    (most : ℕ) (t field required too_long : Text)
    → (required_within most t field required too_long ≡ []) ↔ ((t ≢ []) × (len t ≤ most))
unfolding required_within txt text_eq
required_within-eq-nil most [] field required too_long = (λ e. cc, λ h. absurd (h.0 refl))
required_within-eq-nil most (c ∷ t) field required too_long =
    ((λ e. ((λ p. cc p), ground arith)), λ h. ground arith)

-- Two reports in a row are empty when each is.
pub reports-eq-nil {ℓ κ} :
    {P : Type ℓ} {Q : Type κ} {xs ys : List ErrorDetail}
    → (xs ≡ []) ↔ P
    → (ys ≡ []) ↔ Q
    → (xs ++ ys ≡ []) ↔ (P × Q)
reports-eq-nil {xs} {ys} f g = (
  (λ e. let (ex, ey) = (append-eq-nil_iff xs ys).0 e in (f.0 ex, g.0 ey)),
  (λ h. (append-eq-nil_iff xs ys).1 (f.1 h.0, g.1 h.1)),
)

-- The details of one check after another.
abbrev pub reports : List (List ErrorDetail) → List ErrorDetail
reports [] = []
reports (checked ∷ rest) = checked ++ reports rest

pub reports-all :
    (checks : List (List ErrorDetail)) → (reports checks ≡ []) ↔ All (λ c. c ≡ []) checks
reports-all [] = (λ _. tt, λ _. refl)
reports-all (checked ∷ rest) = reports-eq-nil ((λ e. e), (λ e. e)) (reports-all rest)

-- `p != nil && test(*p)`
abbrev pub given_and {ℓ} : {A : Type ℓ} → (A → Bool) → Option A → Bool
given_and test none = false
given_and test (some a) = test a

pub given_and-eq-false {ℓ} :
    {A : Type ℓ} (test : A → Bool) (o : Option A)
    → (given_and test o ≡ false) ↔ ((a : A) → o ≡ some a → test a ≡ false)
given_and-eq-false test none = (λ _ a e. cc, λ _. refl)
given_and-eq-false test (some a) = (λ h b e. cc, λ h. h a refl)

-- A text that may be empty and is tested if it is not.
pub unless_empty :
    (s : Text) (valid : Bool)
    → ((not (text_eq s (txt "")) && not valid) ≡ false) ↔ (s ≢ [] → valid ≡ true)
unfolding text_eq txt
unless_empty [] valid = (λ _ n. absurd (n refl), λ _. refl)
unless_empty (c ∷ s) valid = (λ e n. ground arith, λ h. let v = h (λ p. cc p) in ground arith)

pub blank_iff :
    (t field issue : Text) → (report_if (text_eq t (txt "")) field issue ≡ []) ↔ (t ≢ [])
blank_iff t field issue = (
  (λ e. (blank-eq-false t).0 ((report_if-eq-nil _ field issue).0 e)),
  (λ n. (report_if-eq-nil _ field issue).1 ((blank-eq-false t).1 n)),
)

-- A report under a test is empty when what the test refuses does not hold.
pub when_iff {ℓ} :
    {Q : Type ℓ} {failed : Bool} (field issue : Text)
    → ((failed ≡ false) ↔ Q)
    → (report_if failed field issue ≡ []) ↔ Q
when_iff field issue q = (
  (λ e. q.0 ((report_if-eq-nil _ field issue).0 e)),
  (λ h. (report_if-eq-nil _ field issue).1 (q.1 h)),
)
