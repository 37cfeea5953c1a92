-- ===== src/Storage/Resume.antt =====
-- internal/storage/validation.go: IsAllowedExtension and ValidateResume. A reader is its bytes, and
-- whether reading past them fails with an error other than the end of the file.
pub mod Accepted
use job_board.Prelude.{
  drop, ℕ, Bool, true, false, not, ◌&&◌, ◌||◌, List, [], ◌∷◌, ◌++◌, Option, none, some, ltb, ◌==◌,
  if◌then◌else◌, is_empty, take, length, zero, suc,
}
use job_board.Prelude.Int.{ℤ, pos, ltb_ℤ}
use job_board.Text.{Text, txt, text_eq, to_lower, trim_prefix, has_prefix}
use job_board.Domain.Types.{DomainError, unsupported_media_type, other, wrapped, Result, ok, err}
use job_board.Storage.Names.{extension, sanitize_filename}

pub record Reader : Type 0 where
  pub content : List ℕ
  pub breaks : Bool

-- `ValidationResult`
pub record ValidationResult : Type 0 where
  pub sanitized_filename : Text
  pub content_type : Text
  pub size : ℤ
  pub reader : Reader

abbrev pub max_resume_size : ℤ
max_resume_size = pos 10485760

abbrev pub file_empty : DomainError
file_empty = other (txt "resume file cannot be empty")

abbrev pub file_too_large : DomainError
file_too_large = other (txt "file exceeds the maximum allowed size of 10MB")

abbrev pub content_type_pdf : Text
content_type_pdf = txt "application/pdf"

abbrev pub content_type_doc : Text
content_type_doc = txt "application/msword"

abbrev pub content_type_docx : Text
content_type_docx = txt "application/vnd.openxmlformats-officedocument.wordprocessingml.document"

abbrev pub magic_pdf : List ℕ
magic_pdf = txt "%PDF"

abbrev pub magic_doc : List ℕ
magic_doc = 0xD0 ∷ 0xCF ∷ 0x11 ∷ 0xE0 ∷ 0xA1 ∷ 0xB1 ∷ 0x1A ∷ 0xE1 ∷ []

abbrev pub magic_zip : List ℕ
magic_zip = 0x50 ∷ 0x4B ∷ 0x03 ∷ 0x04 ∷ []

-- `IsAllowedExtension`
unfoldable pub is_allowed_extension : (ℕ → ℕ) → Text → Bool
is_allowed_extension lower ext =
    let normalized = to_lower lower (trim_prefix ext (txt ".")) in
    text_eq normalized (txt "pdf")
    || text_eq normalized (txt "doc")
    || text_eq normalized (txt "docx")

-- The switch on the extension: the canonical type, where the first bytes are those of the format.
unfoldable pub sniff : Text → List ℕ → Option Text
sniff ext header =
    if text_eq ext (txt ".pdf")
    then (if has_prefix header magic_pdf then some content_type_pdf else none)
    else if text_eq ext (txt ".doc")
    then (if has_prefix header magic_doc then some content_type_doc else none)
    else if text_eq ext (txt ".docx")
    then (if has_prefix header magic_zip then some content_type_docx else none)
    else none

-- `ValidateResume` after its checks of the reader, the size and the extension; `read_error` is the
-- error of a reader that breaks.
unfoldable pub check_content : DomainError → Text → Text → ℤ → Reader → Result ValidationResult
unfolding sniff
check_content read_error sanitized ext size r =
    let header = take 512 r.content in
    if r.breaks && ltb (length r.content) 512
    then err (wrapped (txt "failed to read file header") read_error)
    else if is_empty header
    then err file_empty
    else elim (sniff ext header) [
      | none ↦ err unsupported_media_type
      | some canonical_type ↦ ok (record {
        sanitized_filename = sanitized;
        content_type = canonical_type;
        size = size;
        reader = record r { content = header ++ drop 512 r.content };
      })
    ]

abbrev pub is_zero : ℤ → Bool
is_zero (pos n) = n == 0
is_zero _ = false

-- `ValidateResume`; a nil reader is `none`.
unfoldable pub validate_resume :
    (ℕ → ℕ) → DomainError → Text → ℤ → Option Reader → Result ValidationResult
unfolding is_allowed_extension check_content
validate_resume lower read_error filename size none = err file_empty
validate_resume lower read_error filename size (some r) =
    let sanitized = sanitize_filename lower filename in
    let ext = to_lower lower (extension sanitized) in
    if is_zero size
    then err file_empty
    else if ltb_ℤ max_resume_size size
    then err file_too_large
    else if not (is_allowed_extension lower ext)
    then err unsupported_media_type
    else check_content read_error sanitized ext size r
