-- ===== src/Storage/Resume/Accepted.antt =====
-- What is known of a resume that ValidateResume accepts.
use job_board.Prelude.{
  drop, ℕ, zero, suc, ◌≡◌, ◌≢◌, refl, ap, true, false, not, ◌&&◌, inl, inr, Bool-cases,
  Option-cases, List, [], ◌∷◌, ◌++◌, none, some, take, length, ltb, is_empty, if◌then◌else◌,
}
use job_board.Prelude.Int.{ℤ, pos, ltb_ℤ}
use job_board.Text.{Text, txt, text_eq, to_lower, has_prefix}
use job_board.Text.Equality.{text_eq_sound}
use job_board.Domain.Types.{DomainError, ok}
use job_board.Storage.Names.{extension, sanitize_filename}
use job_board.Storage.Resume.{
  Reader, ValidationResult, max_resume_size, content_type_pdf, content_type_doc, content_type_docx,
  magic_pdf, magic_doc, magic_zip, is_zero, is_allowed_extension, sniff, check_content,
  validate_resume,
}

-- The format of a file, by its extension, its first bytes and its canonical type.
pub data IsFormat (header : List ℕ) : Text → Text → Type 0 where
  pdf : has_prefix header magic_pdf ≡ true → IsFormat header (txt ".pdf") content_type_pdf
  doc : has_prefix header magic_doc ≡ true → IsFormat header (txt ".doc") content_type_doc
  docx : has_prefix header magic_zip ≡ true → IsFormat header (txt ".docx") content_type_docx

-- Everything that an accepted resume has. Its reader gives the whole file, from the first byte.
pub record IsAccepted (lower : ℕ → ℕ) (filename : Text) (size : ℤ) (r : Reader)
    (result : ValidationResult) : Type 0 where
  pub nonzero : size ≢ pos 0
  pub bounded : ltb_ℤ max_resume_size size ≡ false
  pub name : result.sanitized_filename ≡ sanitize_filename lower filename
  pub format :
      IsFormat
        (take 512 r.content)
        (to_lower lower (extension (sanitize_filename lower filename)))
        result.content_type
  pub same_size : result.size ≡ size
  pub same_reader : result.reader ≡ r

take-drop : (n : ℕ) (bytes : List ℕ) → take n bytes ++ drop n bytes ≡ bytes
take-drop zero bytes = refl
take-drop (suc n) [] = refl
take-drop (suc n) (b ∷ bytes) = ap (λ rest. b ∷ rest) (take-drop n bytes)

magic_lem :
    (canonical type : Text) (header magic : List ℕ)
    → (if has_prefix header magic then some canonical else none) ≡ some type
    → (has_prefix header magic ≡ true) × (canonical ≡ type)
magic_lem canonical type header magic e = elim (Bool-cases (has_prefix header magic)) [
  | inl starts ↦ (starts, cc (rw starts at e))
  | inr not_starts ↦ cc (rw not_starts at e)
]

sniff-IsFormat :
    (ext type : Text) (header : List ℕ) → sniff ext header ≡ some type → IsFormat header ext type
unfolding sniff
sniff-IsFormat ext type header e = elim (Bool-cases (text_eq ext (txt ".pdf"))) [
  | inl is_pdf ↦
      let (starts, same) = magic_lem content_type_pdf type header magic_pdf (rw is_pdf at e) in
      rw (text_eq_sound ext (txt ".pdf") is_pdf, ← same) (pdf starts)
  | inr not_pdf ↦ elim (Bool-cases (text_eq ext (txt ".doc"))) [
    | inl is_doc ↦
        let (starts, same) =
          magic_lem content_type_doc type header magic_doc (rw (not_pdf, is_doc) at e) in
        rw (text_eq_sound ext (txt ".doc") is_doc, ← same) (doc starts)
    | inr not_doc ↦ elim (Bool-cases (text_eq ext (txt ".docx"))) [
      | inl is_docx ↦
          let (starts, same) =
            magic_lem content_type_docx type header magic_zip
              (rw (not_pdf, not_doc, is_docx) at e) in
          rw (text_eq_sound ext (txt ".docx") is_docx, ← same) (docx starts)
      | inr not_docx ↦ cc (rw (not_pdf, not_doc, not_docx) at e)
    ]
  ]
]

-- What the last part of ValidateResume gives.
record Checked (sanitized ext : Text) (size : ℤ) (r : Reader) (result : ValidationResult)
    : Type 0 where
  pub name : result.sanitized_filename ≡ sanitized
  pub type : sniff ext (take 512 r.content) ≡ some result.content_type
  pub same_size : result.size ≡ size
  pub same_reader : result.reader ≡ r

check_content-Checked :
    (read_error : DomainError) (sanitized ext : Text) (size : ℤ) (r : Reader)
    (result : ValidationResult)
    → check_content read_error sanitized ext size r ≡ ok result
    → Checked sanitized ext size r result
unfolding check_content
check_content-Checked read_error sanitized ext size r result e =
    elim (Bool-cases (r.breaks && ltb (length r.content) 512)) [
      | inl broken ↦ cc (rw broken at e)
      | inr whole ↦ elim (Bool-cases (is_empty (take 512 r.content))) [
        | inl empty ↦ cc (rw (whole, empty) at e)
        | inr not_empty ↦ elim (Option-cases (sniff ext (take 512 r.content))) [
          | inl unknown ↦ cc (rw (whole, not_empty, unknown) at e)
          | inr (type, known) ↦
              let made : ValidationResult = record {
                sanitized_filename = sanitized;
                content_type = type;
                size = size;
                reader = record r { content = take 512 r.content ++ drop 512 r.content };
              } in
              let given : ok made ≡ ok result = rw (whole, not_empty, known) at e in
              let same : made ≡ result = cc given in
              let whole_file : made.reader ≡ r =
                ap (λ bytes. record r { content = bytes }) (take-drop 512 r.content) in
              record {
                name = rw (← same) refl;
                type = rw (← same) known;
                same_size = rw (← same) refl;
                same_reader = rw (← same) whole_file;
              }
        ]
      ]
    ]

-- A resume that ValidateResume accepts has a declared size that is not 0 and at most 10 MB, and an
-- extension whose magic bytes its content starts with; the result carries the sanitized name, the
-- canonical type of that extension and the declared size, and its reader gives the whole content.
pub validate_resume-IsAccepted :
    (lower : ℕ → ℕ) (read_error : DomainError) (filename : Text) (size : ℤ) (r : Reader)
    (result : ValidationResult)
    → validate_resume lower read_error filename size (some r) ≡ ok result
    → IsAccepted lower filename size r result
unfolding validate_resume
validate_resume-IsAccepted lower read_error filename size r result e =
    let sanitized = sanitize_filename lower filename in
    let ext = to_lower lower (extension sanitized) in
    elim (Bool-cases (is_zero size)) [
      | inl zero_size ↦ cc (rw zero_size at e)
      | inr sized ↦ elim (Bool-cases (ltb_ℤ max_resume_size size)) [
        | inl large ↦ cc (rw (sized, large) at e)
        | inr bounded ↦ elim (Bool-cases (not (is_allowed_extension lower ext))) [
          | inl unknown ↦ cc (rw (sized, bounded, unknown) at e)
          | inr known ↦
              let c =
                check_content-Checked read_error sanitized ext size r result
                  (rw (sized, bounded, known) at e) in
              record {
                nonzero = λ p. let none_at_all = ap is_zero p in cc (sized, none_at_all);
                bounded = bounded;
                name = c.name;
                format = sniff-IsFormat ext result.content_type (take 512 r.content) c.type;
                same_size = c.same_size;
                same_reader = c.same_reader;
              }
        ]
      ]
    ]
