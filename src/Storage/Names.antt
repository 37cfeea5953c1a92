-- ===== src/Storage/Names.antt =====
-- internal/storage/validation.go: SanitizeFilename and GenerateResumeKey, with what they use of
-- path/filepath on a system whose separator is '/'.
pub mod Segments
pub mod Collapse
pub mod Place
use job_board.Prelude.{
  ℕ, zero, suc, Bool, true, false, not, ◌&&◌, ◌||◌, List, [], ◌∷◌, ◌++◌, map, ltb, ◌==◌,
  if◌then◌else◌, is_empty, any, take, length,
}
use job_board.Text.{Text, txt, text_eq, trim_space, trim, trim_right, to_lower, is_alnum}

abbrev pub is_slash : ℕ → Bool
is_slash c = c == b'/'

-- The part of a text after its last '/', `cur` being the part so far.
unfoldable pub last_part : Text → Text → Text
last_part cur [] = cur
last_part cur (c ∷ s) =
    let fresh = last_part [] s in
    let more = last_part (cur ++ c ∷ []) s in if is_slash c then fresh else more

-- `filepath.Base`
unfoldable pub base_name : Text → Text
unfolding last_part
base_name path =
    let part = last_part [] (trim_right is_slash path) in
    if text_eq path (txt "") then txt "." else if text_eq part (txt "") then txt "/" else part

-- `filepath.Ext`: from the last dot on, if it is in the last element of the path.
unfoldable pub extension : Text → Text
extension [] = []
extension (c ∷ s) =
    let rest = extension s in
    if not (is_empty rest) then rest else if c == b'.' && not (any is_slash s) then c ∷ s else []

-- `strings.TrimSuffix`
unfoldable pub trim_suffix : Text → Text → Text
trim_suffix [] suffix = []
trim_suffix (c ∷ s) suffix =
    let rest = trim_suffix s suffix in if text_eq (c ∷ s) suffix then [] else c ∷ rest

-- `unsafeCharRegex`, [^a-zA-Z0-9._-], by what it leaves.
unfoldable pub is_safe_char : ℕ → Bool
is_safe_char c = is_alnum c || c == b'.' || c == b'_' || c == b'-'

abbrev is_underscore : ℕ → Bool
is_underscore c = c == b'_'

-- `strings.Contains(s, "__")` and `strings.ReplaceAll(s, "__", "_")`
unfoldable pub contains_pair : Text → Bool
contains_pair [] = false
contains_pair (c ∷ []) = false
contains_pair (c ∷ d ∷ s) = is_underscore c && is_underscore d || contains_pair (d ∷ s)

unfoldable pub replace_pairs : Text → Text
replace_pairs [] = []
replace_pairs (c ∷ []) = c ∷ []
replace_pairs (c ∷ d ∷ s) =
    let joined = replace_pairs s in
    let kept = replace_pairs (d ∷ s) in
    if is_underscore c && is_underscore d then b'_' ∷ joined else c ∷ kept

-- The loop that collapses underscores, on fuel; each round makes the text shorter.
unfoldable pub collapse : ℕ → Text → Text
unfolding contains_pair replace_pairs
collapse zero s = s
collapse (suc fuel) s =
    let rest = collapse fuel (replace_pairs s) in if contains_pair s then rest else s

abbrev pub is_edge_char : ℕ → Bool
is_edge_char c = c == b'.' || c == b'_' || c == b'-' || c == 32

-- The last element of the path that a client sends, whichever separator it uses.
unfoldable pub client_base : Text → Text
unfolding base_name last_part
client_base trimmed = last_part [] (map (λ c. if c == b'\\' then b'/' else c) (base_name trimmed))

abbrev pub made_safe : Text → Text
made_safe name = map (λ c. if is_safe_char c then c else b'_') name

abbrev pub or_resume : Text → Text
or_resume sanitized = if text_eq sanitized (txt "") then txt "resume" else sanitized

abbrev pub cut_name : Text → Text
cut_name sanitized = if ltb 100 (length sanitized) then take 100 sanitized else sanitized

-- The name without its extension, made safe and cut to 100 characters.
unfoldable pub safe_stem : Text → Text
unfolding is_safe_char collapse
safe_stem name =
    let replaced = made_safe name in
    cut_name (or_resume (trim is_edge_char (collapse (length replaced) replaced)))

abbrev pub lowered_extension : (ℕ → ℕ) → Text → Text
lowered_extension lower base =
    let ext = to_lower lower (extension base) in if text_eq ext (txt ".") then txt "" else ext

-- `SanitizeFilename`
unfoldable pub sanitize_filename : (ℕ → ℕ) → Text → Text
unfolding client_base extension trim_suffix safe_stem
sanitize_filename lower filename =
    let trimmed = trim_space filename in
    let base = client_base trimmed in
    if text_eq trimmed (txt "")
    then txt "resume"
    else if text_eq base (txt ".") || text_eq base (txt "/") || text_eq base (txt "")
    then txt "resume"
    else safe_stem (trim_suffix base (extension base)) ++ lowered_extension lower base

-- `GenerateResumeKey`
unfoldable pub generate_resume_key : (ℕ → ℕ) → Text → Text → Text → Text
unfolding sanitize_filename
generate_resume_key lower job_id app_id filename =
    txt "resumes/"
    ++ (trim_space job_id
        ++ (b'/' ∷ (trim_space app_id ++ (b'/' ∷ sanitize_filename lower filename))))
