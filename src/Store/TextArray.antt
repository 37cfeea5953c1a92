-- ===== src/Store/TextArray.antt =====
-- internal/store/postgres/helpers.go: TextArray, which writes a slice of strings as a PostgreSQL
-- text[] literal and reads one back. The marks of the format are ASCII, so that a loop over bytes
-- and a loop over code points cut a text at the same places.
pub mod RoundTrip
use job_board.Prelude.{
  ℕ, Bool, true, false, not, ◌&&◌, ◌||◌, List, [], ◌∷◌, ◌++◌, Option, none, some, ◌==◌, map,
  if◌then◌else◌,
}
use job_board.Text.{Text, txt, text_eq, trim_space, has_prefix}
use job_board.Domain.Values.{Value}

-- The inner loop of `Value`, over the characters of one string.
escape : Text → Text
escape [] = []
escape (r ∷ s) = (if r == b'\\' || r == b'"' then b'\\' ∷ r ∷ [] else r ∷ []) ++ escape s

-- The outer loop; `first` is `i == 0`.
write_items : Bool → List Text → Text
write_items first [] = []
write_items first (s ∷ a) =
    (if first then [] else b',' ∷ []) ++ (b'"' ∷ (escape s ++ (b'"' ∷ write_items false a)))

-- `Value`; a nil slice is `none`.
unfoldable pub value : Option (List Text) → Text
unfolding write_items escape
value none = txt "{}"
value (some a) = b'{' ∷ (write_items true a ++ (b'}' ∷ []))

-- What the driver hands to `Scan`; `text` is a string or a []byte.
pub data Source : Type 0 where
  null unsupported : Source
  text : Text → Source
  strings : List Text → Source
  values : List Value → Source

pub data Scanned : Type 0 where
  ok : List Text → Scanned
  unsupported_type : Scanned
  invalid_format : Text → Scanned

-- The loop of `Scan`: the element under construction and the two flags.
read_items : Text → Bool → Bool → Text → List Text
read_items cur in_quotes escaped [] = cur ∷ []
read_items cur in_quotes true (c ∷ s) = read_items (cur ++ c ∷ []) in_quotes false s
read_items cur in_quotes false (c ∷ s) =
    let after_escape = read_items cur in_quotes true s in
    let after_quote = read_items cur (not in_quotes) false s in
    let after_comma = cur ∷ read_items [] in_quotes false s in
    let copied = read_items (cur ++ c ∷ []) in_quotes false s in
    if c == b'\\'
    then after_escape
    else if c == b'"'
    then after_quote
    else if c == b',' && not in_quotes
    then after_comma
    else copied

-- `strings.HasSuffix` at one character, and a text without its last character.
ends_with : ℕ → Text → Bool
ends_with d [] = false
ends_with d (c ∷ []) = c == d
ends_with d (c ∷ c' ∷ s) = ends_with d (c' ∷ s)

drop_last : Text → Text
drop_last [] = []
drop_last (c ∷ []) = []
drop_last (c ∷ c' ∷ s) = c ∷ drop_last (c' ∷ s)

abbrev tail : Text → Text
tail [] = []
tail (c ∷ s) = s

scan_text : Text → Scanned
unfolding read_items ends_with drop_last
scan_text str =
    if text_eq str (txt "") || text_eq str (txt "{}")
    then ok []
    else if not (has_prefix str (txt "{")) || not (ends_with b'}' str)
    then invalid_format str
    else let content = drop_last (tail str) in
      if text_eq content (txt "") then ok [] else ok (read_items [] false false content)

-- `Scan`; `sprint` is fmt.Sprint.
unfoldable pub scan : (Value → Text) → Source → Scanned
unfolding scan_text
scan sprint null = ok []
scan sprint (text v) = scan_text (trim_space v)
scan sprint (strings v) = ok v
scan sprint (values v) = ok (map sprint v)
scan sprint unsupported = unsupported_type
