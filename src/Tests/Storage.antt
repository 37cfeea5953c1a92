-- ===== src/Tests/Storage.antt =====
-- File names and resumes.
use job_board.Prelude.{ℕ, ◌≡◌, refl, false, [], ◌∷◌, none, some, arith, All}
use job_board.Prelude.Int.{pos}
use job_board.Text.{Text, txt, trim_space}
use job_board.Domain.Types.{internal, unsupported_media_type, ok}
use job_board.Storage.Names.{
  contains_pair, collapse, last_part, sanitize_filename, generate_resume_key,
}
use job_board.Storage.Header.{validate_resume_header}
use job_board.Storage.Names.Place.{NoSlash, elements, elements-generate_resume_key}
use job_board.Storage.Names.Segments.{Plain, LowersPlainly, sanitize_filename-Plain}
use job_board.Storage.Resume.{Reader, ValidationResult, content_type_pdf, validate_resume}
use job_board.Storage.Resume.Accepted.{IsAccepted, validate_resume-IsAccepted}

abbrev lower : ℕ → ℕ
lower c = c

sanitized : sanitize_filename lower (txt "../../My CV (final).PDF") ≡ txt "My_CV_final.pdf"
unfolding sanitize_filename txt job_board.Text.text_eq job_board.Text.trim_space
    job_board.Text.is_alnum job_board.Text.to_lower
sanitized = refl

lower-LowersPlainly : LowersPlainly lower
lower-LowersPlainly c h = (ground arith, ground arith)

sanitize_filename-Plain_example : All Plain (sanitize_filename lower (txt "a\\b/c.doc"))
sanitize_filename-Plain_example =
    sanitize_filename-Plain lower (txt "a\\b/c.doc") lower-LowersPlainly

job_plain : NoSlash (trim_space (txt "job-1"))
unfolding txt trim_space
job_plain = (refl, (refl, (refl, (refl, (refl, tt)))))

app_plain : NoSlash (trim_space (txt " app-1"))
unfolding txt trim_space
app_plain = (refl, (refl, (refl, (refl, (refl, tt)))))

elements-generate_resume_key_example :
    elements [] (generate_resume_key lower (txt "job-1") (txt " app-1") (txt "../cv.pdf"))
    ≡ txt "resumes"
      ∷ trim_space (txt "job-1")
      ∷ trim_space (txt " app-1")
      ∷ sanitize_filename lower (txt "../cv.pdf")
      ∷ []
elements-generate_resume_key_example =
    elements-generate_resume_key lower (txt "job-1") (txt " app-1") (txt "../cv.pdf") job_plain
      app_plain lower-LowersPlainly

abbrev underscores : Text
underscores = b'_' ∷ b'_' ∷ b'_' ∷ b'_' ∷ b'_' ∷ []

declared : validate_resume_header lower (txt "cv.pdf") (pos 5) (txt "application/zip ; q=1") ≡ none
unfolding validate_resume_header txt job_board.Text.text_eq job_board.Text.to_lower
    job_board.Text.trim_space sanitize_filename job_board.Text.is_alnum
    job_board.Storage.Resume.is_allowed_extension job_board.Text.trim_prefix
declared = refl

undeclared :
    validate_resume_header lower (txt "cv.pdf") (pos 5) (txt "text/plain")
    ≡ some unsupported_media_type
unfolding validate_resume_header txt job_board.Text.text_eq job_board.Text.to_lower
    job_board.Text.trim_space sanitize_filename job_board.Text.is_alnum
    job_board.Storage.Resume.is_allowed_extension job_board.Text.trim_prefix
undeclared = refl

abbrev file : Reader
file = record { content = b'%' ∷ b'P' ∷ b'D' ∷ b'F' ∷ b'-' ∷ []; breaks = false }

abbrev result : ValidationResult
result = record {
  sanitized_filename = txt "cv.pdf";
  content_type = content_type_pdf;
  size = pos 5;
  reader = file;
}

accepted : validate_resume lower internal (txt "cv.pdf") (pos 5) (some file) ≡ ok result
unfolding validate_resume txt job_board.Text.text_eq job_board.Text.to_lower
    job_board.Text.trim_prefix job_board.Storage.Names.extension sanitize_filename
    job_board.Text.trim_space job_board.Text.is_alnum
accepted = refl

validate_resume-IsAccepted_example : IsAccepted lower (txt "cv.pdf") (pos 5) file result
validate_resume-IsAccepted_example =
    validate_resume-IsAccepted lower internal (txt "cv.pdf") (pos 5) file result accepted
