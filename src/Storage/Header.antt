-- ===== src/Storage/Header.antt =====
-- internal/storage/validation.go: IsAllowedMimeType and ValidateResumeHeader, the checks of what an
-- upload declares of itself.
pub mod Agrees
use job_board.Prelude.{
  ℕ, Bool, not, ◌&&◌, ◌||◌, List, [], ◌∷◌, Option, none, some, ◌==◌, if◌then◌else◌, is_empty, any,
}
use job_board.Prelude.Int.{ℤ, ltb_ℤ}
use job_board.Text.{Text, txt, text_eq, to_lower, trim_space}
use job_board.Domain.Types.{DomainError, unsupported_media_type}
use job_board.Storage.Names.{extension, sanitize_filename}
use job_board.Storage.Resume.{
  file_empty, file_too_large, max_resume_size, is_zero, is_allowed_extension, content_type_pdf,
  content_type_doc, content_type_docx,
}

-- `allowedMIMETypes`, each with its canonical form
abbrev pub allowed_mime_types : List (Text × Text)
allowed_mime_types =
    (txt "application/pdf", content_type_pdf)
    ∷ (txt "application/x-pdf", content_type_pdf)
    ∷ (txt "application/msword", content_type_doc)
    ∷ (txt "application/x-msword", content_type_doc)
    ∷ (txt "application/vnd.ms-word", content_type_doc)
    ∷ (
      txt "application/vnd.openxmlformats-officedocument.wordprocessingml.document",
      content_type_docx,
    )
    ∷ (txt "application/zip", content_type_docx)
    ∷ (txt "application/x-zip-compressed", content_type_docx)
    ∷ []

-- `strings.Split(s, ";")[0]`: what stands before the first semicolon, all of it without one.
unfoldable pub before_semicolon : Text → Text
before_semicolon [] = []
before_semicolon (c ∷ s) = if c == b';' then [] else c ∷ before_semicolon s

-- The media type of a `Content-Type`, without its parameters.
unfoldable pub clean_type : (ℕ → ℕ) → Text → Text
unfolding before_semicolon
clean_type lower s = to_lower lower (trim_space (before_semicolon s))

-- `IsAllowedMimeType`
unfoldable pub is_allowed_mime_type : (ℕ → ℕ) → Text → Bool
unfolding clean_type
is_allowed_mime_type lower mime_type =
    let cleaned = clean_type lower mime_type in
    any (λ row. text_eq cleaned row.0) allowed_mime_types

-- The check of the declared content type; one that says nothing of the content is left to the sniff.
unfoldable pub check_declared : (ℕ → ℕ) → Text → Option DomainError
unfolding clean_type is_allowed_mime_type
check_declared lower header =
    let cleaned = clean_type lower header in
    if is_empty header
      || text_eq cleaned (txt "application/octet-stream")
      || text_eq cleaned (txt "multipart/form-data")
    then none
    else if is_allowed_mime_type lower cleaned
    then none
    else some unsupported_media_type

-- `ValidateResumeHeader`; `none` is a nil error.
unfoldable pub validate_resume_header : (ℕ → ℕ) → Text → ℤ → Text → Option DomainError
unfolding check_declared is_allowed_extension
validate_resume_header lower filename size header_content_type =
    let sanitized = sanitize_filename lower filename in
    let ext = to_lower lower (extension sanitized) in
    if is_zero size
    then some file_empty
    else if ltb_ℤ max_resume_size size
    then some file_too_large
    else if not (is_allowed_extension lower ext)
    then some unsupported_media_type
    else check_declared lower header_content_type
