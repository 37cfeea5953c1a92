-- ===== src/Tests/Auth.antt =====
-- Keys and admission at concrete requests. The hash is any function: here a text is its own hash.
use job_board.Prelude.{ℕ, ◌≡◌, refl, ◌↔◌, true, List, [], ◌∷◌, none, some, if◌then◌else◌}
use job_board.Text.{Text, txt, text_eq}
use job_board.Domain.Types.{ApiKey, scope_public, scope_admin, not_found, Result, ok, err}
use job_board.Auth.{KeyResult, fine, Headers, has_required_scope, serve, api_key_auth, generate_key}
use job_board.Auth.Admitted.{IsAdmitted, api_key_auth-eq-serve}

abbrev same_text : Text → Text
same_text s = s

abbrev random : List ℕ
random = 1 ∷ 254 ∷ []

abbrev raw : Text
raw = txt "jb_pub_01fe"

abbrev stored_key : ApiKey
stored_key = record {
  id = txt "";
  name = txt "site";
  key_hash = raw;
  key_prefix = txt "jb_pub_";
  scope = scope_public;
  created_at = 5;
  last_used_at = none;
}

abbrev find_key : Text → Result ApiKey
find_key hash = if text_eq hash raw then ok stored_key else err not_found

abbrev with_key : Headers
with_key = record { x_api_key = raw; authorization = txt "" }

generated :
    generate_key same_text 5 (some random) (txt "site") scope_public ≡ fine (raw, stored_key)
unfolding generate_key txt text_eq job_board.Auth.hex
generated = refl

enough : has_required_scope scope_public scope_public ≡ true
unfolding has_required_scope txt text_eq
enough = refl

api_key_auth-eq-serve_example :
    (api_key_auth same_text find_key scope_admin with_key ≡ serve stored_key)
    ↔ IsAdmitted same_text find_key scope_admin with_key stored_key
api_key_auth-eq-serve_example =
    api_key_auth-eq-serve same_text find_key scope_admin with_key stored_key
