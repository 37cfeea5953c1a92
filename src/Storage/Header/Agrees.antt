-- ===== src/Storage/Header/Agrees.antt =====
-- The two entrances of internal/storage/validation.go against each other.
use job_board.Prelude.{ℕ, ◌≡◌, refl, inl, inr, Bool-cases, some}
use job_board.Prelude.Int.{ℤ, ltb_ℤ}
use job_board.Text.{Text, to_lower}
use job_board.Domain.Types.{DomainError, ok}
use job_board.Storage.Names.{extension, sanitize_filename}
use job_board.Storage.Resume.{
  Reader, ValidationResult, max_resume_size, is_zero, is_allowed_extension, validate_resume,
}
use job_board.Storage.Header.{check_declared, validate_resume_header}

-- A resume that ValidateResume accepts under a declared size is refused by ValidateResumeHeader, if
-- at all, for its declared content type alone.
validate_resume_header-eq-check_declared :
    (lower : ℕ → ℕ) (read_error : DomainError) (filename : Text) (size : ℤ) (r : Reader)
    (header_content_type : Text) (result : ValidationResult)
    → validate_resume lower read_error filename size (some r) ≡ ok result
    → validate_resume_header lower filename size header_content_type
      ≡ check_declared lower header_content_type
unfolding validate_resume validate_resume_header
validate_resume_header-eq-check_declared lower read_error filename size r declared result e =
    let ext = to_lower lower (extension (sanitize_filename lower filename)) in
    elim (Bool-cases (is_zero size)) [
      | inl empty ↦ cc (rw empty at e)
      | inr nonempty ↦ elim (Bool-cases (ltb_ℤ max_resume_size size)) [
        | inl large ↦ cc (rw (nonempty, large) at e)
        | inr small ↦ elim (Bool-cases (is_allowed_extension lower ext)) [
          | inl allowed ↦ rw (nonempty, small, allowed) refl
          | inr other_format ↦ cc (rw (nonempty, small, other_format) at e)
        ]
      ]
    ]
