-- ===== src/Domain/Values.antt =====
-- Dynamic values (`interface{}`), and what the program takes from the standard library at them.
use job_board.Prelude.{
  ℕ, Bool, true, false, not, ◌&&◌, ◌||◌, List, Option, none, some, if◌then◌else◌, is_empty, any,
}
use job_board.Prelude.Int.{ℤ}
use job_board.Text.{Text, txt, text_eq, trim_space, to_lower}

-- `number` is a value of any numeric type, `strings` a []string, `array` a []interface{} and
-- `object` a map[string]interface{}; `unknown` has a dynamic type that no case of a switch names.
mutual
  pub data Value : Type 0 where
    null unknown : Value
    boolean : Bool → Value
    number : ℤ → Value
    str : Text → Value
    strings : List Text → Value
    array : Items → Value
    object : Entries → Value

  pub data Items : Type 0 where
    nil : Items
    cons : Value → Items → Items

  pub data Entries : Type 0 where
    end : Entries
    entry : Text → Value → Entries → Entries

-- Large parsers and tables of the standard library that the program calls and does not implement:
-- unicode.ToLower above ASCII, strings.EqualFold, fmt.Sprint of what is no string, whether
-- strconv.ParseFloat and mail.ParseAddress succeed, and the scheme and host of
-- url.ParseRequestURI, `none` where it fails.
pub record Platform : Type 0 where
  pub lower_rune : ℕ → ℕ
  pub equal_fold : Text → Text → Bool
  pub sprint_other : Value → Text
  pub parses_float : Text → Bool
  pub parses_address : Text → Bool
  pub parse_request_uri : Text → Option (Text × Text)

-- `IsEmptyValue`
unfoldable pub is_empty_value : Value → Bool
is_empty_value null = true
is_empty_value (str v) = text_eq (trim_space v) (txt "")
is_empty_value (array nil) = true
is_empty_value (strings v) = is_empty v
is_empty_value (object end) = true
is_empty_value _ = false

module _ (P : Platform) where
  abbrev http_host : Option (Text × Text) → Bool
  http_host none = false
  http_host (some (scheme, host)) =
      (text_eq scheme (txt "http") || text_eq scheme (txt "https")) && not (text_eq host (txt ""))

  -- `IsValidURL`
  unfoldable pub is_valid_url : Value → Bool
  is_valid_url (str v) =
      let s = trim_space v in
      if text_eq s (txt "") then false else http_host (P.parse_request_uri s)
  is_valid_url _ = false

  -- `IsValidNumber`
  unfoldable pub is_valid_number : Value → Bool
  is_valid_number (number v) = true
  is_valid_number (str v) = P.parses_float (trim_space v)
  is_valid_number _ = false

  -- `IsValidBoolean`
  unfoldable pub is_valid_boolean : Value → Bool
  is_valid_boolean (boolean v) = true
  is_valid_boolean (str v) =
      let lower = to_lower P.lower_rune (trim_space v) in
      text_eq lower (txt "true") || text_eq lower (txt "false")
  is_valid_boolean _ = false

  abbrev sprint : Value → Text
  sprint (str v) = v
  sprint v = P.sprint_other v

  -- `IsValidOption`
  unfoldable pub is_valid_option : Value → List Text → Bool
  is_valid_option val options =
      let str_val = trim_space (sprint val) in
      any (λ opt. P.equal_fold (trim_space opt) str_val) options
