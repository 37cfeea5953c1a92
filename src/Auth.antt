-- ===== src/Auth.antt =====
-- internal/auth/auth.go and internal/api/middleware/auth.go: API keys, and who may pass.
-- SHA-256 is a parameter, `sha256_hex`, and so are the random bytes and the time.
pub mod Generated
pub mod Admitted
use job_board.Prelude.{
  ℕ, ◌+◌, ◌/◌, ◌%◌, Bool, true, false, not, ◌&&◌, ◌||◌, List, [], ◌∷◌, ◌++◌, Option, none, some,
  ◌==◌, ltb, leb, map, if◌then◌else◌,
}
use job_board.Text.{Text, txt, text_eq, len, trim_space, has_prefix, ascii_lower}
use job_board.Domain.Types.{
  ApiKey, ApiKeyScope, scope_public, scope_admin, Time, DomainError, Result, ok, err, is_not_found,
}

abbrev pub prefix_public : Text
prefix_public = txt "jb_pub_"

abbrev pub prefix_admin : Text
prefix_admin = txt "jb_sec_"

pub data AuthError : Type 0 where
  invalid_scope invalid_key key_too_short missing_api_key no_random_bytes : AuthError

pub data KeyResult {ℓ} (A : Type ℓ) : Type ℓ where
  fine : A → KeyResult A
  fail : AuthError → KeyResult A

-- `hex.EncodeToString`
unfoldable pub hex_digit : ℕ → ℕ
hex_digit n = if ltb n 10 then 48 + n else 87 + n

unfoldable pub hex : List ℕ → Text
unfolding hex_digit
hex [] = []
hex (b ∷ bytes) = hex_digit (b / 16) ∷ hex_digit (b % 16) ∷ hex bytes

unfoldable pub prefix_of : ApiKeyScope → Option Text
prefix_of scope =
    if text_eq scope scope_admin
    then some prefix_admin
    else if text_eq scope scope_public
    then some prefix_public
    else none

module _ (sha256_hex : Text → Text) where
  abbrev new_key : Time → Text → ApiKeyScope → Text → Option (List ℕ) → KeyResult (Text × ApiKey)
  new_key now name scope pre none = fail no_random_bytes
  new_key now name scope pre (some random_bytes) =
      let raw_key = pre ++ hex random_bytes in
      fine (
        raw_key,
        record {
          id = txt "";
          name = name;
          key_hash = sha256_hex raw_key;
          key_prefix = pre;
          scope = scope;
          created_at = now;
          last_used_at = none;
        },
      )

  -- `GenerateKey`; `random` is what rand.Read yields, `none` if it fails.
  unfoldable pub generate_key :
      Time → Option (List ℕ) → Text → ApiKeyScope → KeyResult (Text × ApiKey)
  unfolding prefix_of
  generate_key now random name scope = elim (prefix_of scope) [
    | none ↦ fail invalid_scope
    | some pre ↦ new_key now name scope pre random
  ]

-- `ValidateKeyFormat`
unfoldable pub validate_key_format : Text → KeyResult ApiKeyScope
validate_key_format raw_key =
    let trimmed = trim_space raw_key in
    if text_eq trimmed (txt "")
    then fail missing_api_key
    else if has_prefix trimmed prefix_admin
    then (if leb (len trimmed) (len prefix_admin) then fail key_too_short else fine scope_admin)
    else if has_prefix trimmed prefix_public
    then (if leb (len trimmed) (len prefix_public) then fail key_too_short else fine scope_public)
    else fail invalid_key

-- `strings.SplitN(s, " ", 2)`: the parts before and after the first space, or `none`.
unfoldable pub split_space : Text → Option (Text × Text)
split_space [] = none
split_space (c ∷ s) = elim (c == 32) [
  | true ↦ some ([], s)
  | false ↦ elim (split_space s) [ none ↦ none | some (a, b) ↦ some (c ∷ a, b) ]
]

-- `strings.EqualFold(s, "Bearer")`: no letter of the word has a case outside ASCII.
unfoldable pub is_bearer : Text → Bool
is_bearer s = text_eq (map ascii_lower s) (txt "bearer")

abbrev bearer_token : Option (Text × Text) → Text
bearer_token none = txt ""
bearer_token (some (word, rest)) = if is_bearer word then trim_space rest else txt ""

-- The two headers that `ExtractAPIKey` reads; a header that is not there is empty.
pub record Headers : Type 0 where
  pub x_api_key : Text
  pub authorization : Text

-- `ExtractAPIKey`
unfoldable pub extract_api_key : Headers → Text
unfolding split_space is_bearer
extract_api_key r =
    let api_key = trim_space r.x_api_key in
    let auth_header = trim_space r.authorization in
    if not (text_eq api_key (txt ""))
    then api_key
    else if not (text_eq auth_header (txt ""))
    then bearer_token (split_space auth_header)
    else txt ""

-- `HasRequiredScope`
unfoldable pub has_required_scope : ApiKeyScope → ApiKeyScope → Bool
has_required_scope actual_scope required_scope =
    if text_eq actual_scope scope_admin
    then true
    else if text_eq actual_scope scope_public && text_eq required_scope scope_public
    then true
    else false

-- What `ApiKeyAuth` does with a request: it answers with a status and an error code, or it hands
-- the request on with the key in its context, and `last_used_at` of the key is updated.
pub data Admission : Type 0 where
  respond : ℕ → Text → Admission
  serve : ApiKey → Admission

module _ (sha256_hex : Text → Text) (get_by_hash : Text → Result ApiKey) where
  abbrev admit : ApiKeyScope → Result ApiKey → Admission
  admit required_scope (ok api_key) =
      if not (has_required_scope api_key.scope required_scope)
      then respond 403 (txt "FORBIDDEN")
      else serve api_key
  admit required_scope (err e) =
      if is_not_found e
      then respond 401 (txt "INVALID_API_KEY")
      else respond 500 (txt "INTERNAL_SERVER_ERROR")

  abbrev check_format : ApiKeyScope → Text → KeyResult ApiKeyScope → Admission
  check_format required_scope raw_key (fail e) = respond 401 (txt "INVALID_API_KEY")
  check_format required_scope raw_key (fine _) =
      admit required_scope (get_by_hash (sha256_hex raw_key))

  -- `ApiKeyAuth`
  unfoldable pub api_key_auth : ApiKeyScope → Headers → Admission
  api_key_auth required_scope r =
      let raw_key = extract_api_key r in
      if text_eq raw_key (txt "")
      then respond 401 (txt "INVALID_API_KEY")
      else check_format required_scope raw_key (validate_key_format raw_key)
