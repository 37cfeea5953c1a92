-- ===== src/Storage/Names/Place.antt =====
-- Where a resume is stored: the elements of its key.
use job_board.Prelude.{
  ℕ, ◌≡◌, refl, sym, ap, ◌∙◌, false, List, [], ◌∷◌, ◌++◌, All, append-nil, append_assoc,
  if◌then◌else◌,
}
use job_board.Text.{Text, txt, trim_space}
use job_board.Storage.Names.{is_slash, sanitize_filename, generate_resume_key}
use job_board.Storage.Names.Segments.{Plain, LowersPlainly, sanitize_filename-Plain}

-- The elements of a path between its '/', `cur` being the part of the first so far.
unfoldable pub elements : Text → Text → List Text
elements cur [] = cur ∷ []
elements cur (c ∷ s) =
    let fresh = elements [] s in
    let more = elements (cur ++ c ∷ []) s in if is_slash c then cur ∷ fresh else more

abbrev pub NoSlash : Text → Type 0
NoSlash = All (λ c. is_slash c ≡ false)

Plain-NoSlash : (s : Text) → All Plain s → NoSlash s
Plain-NoSlash [] h = tt
Plain-NoSlash (c ∷ s) (p, h) = (p.0, Plain-NoSlash s h)

elements-NoSlash : (cur s : Text) → NoSlash s → elements cur s ≡ (cur ++ s) ∷ []
unfolding elements
elements-NoSlash cur [] h = ap (λ e. e ∷ []) (sym (append-nil cur))
elements-NoSlash cur (c ∷ s) (p, h) =
    rw p (elements-NoSlash (cur ++ c ∷ []) s h ∙ ap (λ e. e ∷ []) (append_assoc cur (c ∷ []) s))

elements-append :
    (cur s t : Text) → NoSlash s → elements cur (s ++ (b'/' ∷ t)) ≡ (cur ++ s) ∷ elements [] t
unfolding elements
elements-append cur [] t h = ap (λ e. e ∷ elements [] t) (sym (append-nil cur))
elements-append cur (c ∷ s) t (p, h) = rw p (
    elements-append (cur ++ c ∷ []) s t h
    ∙ ap (λ e. e ∷ elements [] t) (append_assoc cur (c ∷ []) s))

-- If the trimmed ids of the job and of the application hold no '/', and lowering a character above
-- ASCII gives neither '/' nor '\', then the key under which a resume is stored has exactly four
-- elements, whatever the name that the client sent: "resumes", the two trimmed ids, and the sanitized
-- file name.
pub elements-generate_resume_key :
    (lower : ℕ → ℕ) (job_id app_id filename : Text)
    → NoSlash (trim_space job_id)
    → NoSlash (trim_space app_id)
    → LowersPlainly lower
    → elements [] (generate_resume_key lower job_id app_id filename)
      ≡ txt "resumes"
        ∷ trim_space job_id
        ∷ trim_space app_id
        ∷ sanitize_filename lower filename
        ∷ []
unfolding generate_resume_key
elements-generate_resume_key lower job_id app_id filename job_plain app_plain keeps =
    let name = sanitize_filename lower filename in
    let tail = trim_space app_id ++ (b'/' ∷ name) in
    let top : elements [] (generate_resume_key lower job_id app_id filename)
        ≡ txt "resumes" ∷ elements [] (trim_space job_id ++ (b'/' ∷ tail)) =
      unfold txt elements in refl in
    let at_name =
      elements-NoSlash [] name
        (Plain-NoSlash name (sanitize_filename-Plain lower filename keeps)) in
    rw
      (
        top,
        elements-append [] (trim_space job_id) tail job_plain,
        elements-append [] (trim_space app_id) name app_plain,
        at_name,
      )
      refl
