-- ===== src/Api/Responses.antt =====
-- internal/api/httputil/response.go, and the handlers' mapping from errors to responses.
pub mod Pages
use job_board.Prelude.{
  ℕ, ◌+◌, ◌-◌, ◌/◌, Bool, true, false, ◌&&◌, List, [], ◌∷◌, Option, none, some, ltb, if◌then◌else◌,
}
use job_board.Text.{Text, txt}
use job_board.Domain.Types.{
  ErrorDetail, DomainError, conflict, validation_error, wrapped, is_not_found,
  is_unsupported_media_type, Result, ok, err,
}

-- A response: a status with a Location header and a value for the body, a status without a body, or
-- an error envelope with its code, message and details.
pub data Response {ℓ} (A : Type ℓ) : Type ℓ where
  answer : ℕ → Option Text → A → Response A
  no_content : Response A
  failure : ℕ → Text → Text → List ErrorDetail → Response A

-- `errors.Is(err, domain.ErrConflict)`
abbrev pub is_conflict : DomainError → Bool
is_conflict conflict = true
is_conflict (wrapped message e) = is_conflict e
is_conflict _ = false

-- `errors.As(err, &valErr)`
abbrev pub validation_details : DomainError → Option (List ErrorDetail)
validation_details (validation_error message details) = some details
validation_details (wrapped message e) = validation_details e
validation_details _ = none

abbrev pub validation_failed : Text
validation_failed = txt "The provided input failed validation checks."

abbrev pub invalid {ℓ} : {A : Type ℓ} → List ErrorDetail → Response A
invalid details = failure 422 (txt "VALIDATION_ERROR") validation_failed details

abbrev pub missing {ℓ} : {A : Type ℓ} → Text → Response A
missing message = failure 404 (txt "NOT_FOUND") message []

abbrev pub broken {ℓ} : {A : Type ℓ} → Text → Response A
broken message = failure 500 (txt "INTERNAL_SERVER_ERROR") message []

abbrev pub bad_body {ℓ} : {A : Type ℓ} → Response A
bad_body = invalid (record { field = txt "body"; issue = txt "Invalid JSON request body" } ∷ [])

-- The errors that a handler tells apart, each with its message, in the order of the code: not found,
-- conflict, unsupported media type, validation; every other is internal.
pub record Cases : Type 0 where
  pub not_found_message : Option Text
  pub conflict_message : Option Text
  pub media_message : Option Text
  pub validates : Bool
  pub internal_message : Text

abbrev pub by_message {ℓ} :
    {A : Type ℓ} → Bool → Option Text → (Text → Response A) → Response A → Response A
by_message test none give rest = rest
by_message test (some message) give rest = if test then give message else rest

abbrev pub by_details {ℓ} :
    {A : Type ℓ} → Bool → Option (List ErrorDetail) → Response A → Response A
by_details validates none rest = rest
by_details validates (some details) rest = if validates then invalid details else rest

-- The answer to an error of a service.
unfoldable pub respond_error {ℓ} : {A : Type ℓ} → Cases → DomainError → Response A
respond_error cases e = by_message (is_not_found e) cases.not_found_message missing (
    by_message (is_conflict e) cases.conflict_message
      (λ message. failure 409 (txt "CONFLICT") message [])
      (by_message (is_unsupported_media_type e) cases.media_message
        (λ message. failure 415 (txt "UNSUPPORTED_MEDIA_TYPE") message [])
        (by_details cases.validates (validation_details e) (broken cases.internal_message))))

-- The answer to what a service gives.
unfoldable pub respond {ℓ} : {A : Type ℓ} → Cases → (A → Response A) → Result A → Response A
respond cases success (ok a) = success a
respond cases success (err e) = respond_error cases e

-- `PaginatedResponse`
pub record Paginated (A : Type 0) : Type 0 where
  pub items : List A
  pub page : ℕ
  pub limit : ℕ
  pub total_items : ℕ
  pub total_pages : ℕ

-- The number of pages, `limit` being positive.
unfoldable pub total_pages : ℕ → ℕ → ℕ
total_pages total limit = if ltb 0 total then (total + limit - 1) / limit else 0

-- The answer to a list, with its page and limit.
unfoldable pub respond_page :
    {A : Type 0} → Cases → ℕ → ℕ → Result (List A × ℕ) → Response (Paginated A)
unfolding total_pages respond_error
respond_page cases page limit (ok (items, total)) = answer 200 none (record {
  items = items;
  page = page;
  limit = limit;
  total_items = total;
  total_pages = total_pages total limit;
})
respond_page cases page limit (err e) = respond_error cases e
