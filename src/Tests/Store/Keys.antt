-- ===== src/Tests/Store/Keys.antt =====
-- Keys: stored, served and deleted. A text is its own hash.
use job_board.Prelude.{ℕ, ◌≡◌, refl, true, List, [], ◌∷◌, none, some, arith}
use job_board.Text.{Text, txt, text_eq}
use job_board.Domain.Types.{ApiKey, scope_public, ok}
use job_board.Auth.{
  fine, Headers, extract_api_key, has_required_scope, serve, respond, api_key_auth, generate_key,
}
use job_board.Auth.Generated.{Bytes}
use job_board.Store.Database.{Database}
use job_board.Store.Keys.{create_row, get_by_hash, delete_row}
use job_board.Store.Keys.Lifecycle.{created_key_is_served, deleted_key_is_refused}
use job_board.Store.Integrity.Rules.{IsConsistent}
use job_board.Tests.Store.{pg, empty}

abbrev same_text : Text → Text
same_text s = s

abbrev random : List ℕ
random = 1 ∷ 254 ∷ []

abbrev raw : Text
raw = txt "jb_pub_01fe"

abbrev new_key : ApiKey
new_key = record {
  id = txt "";
  name = txt "site";
  key_hash = raw;
  key_prefix = txt "jb_pub_";
  scope = scope_public;
  created_at = 5;
  last_used_at = none;
}

abbrev row : ApiKey
row = record new_key { id = txt "key-1" }

abbrev one_key : Database
one_key = record empty { keys = row ∷ [] }

abbrev with_key : Headers
with_key = record { x_api_key = raw; authorization = txt "" }

generated : generate_key same_text 5 (some random) (txt "site") scope_public ≡ fine (raw, new_key)
unfolding generate_key text_eq txt job_board.Auth.hex
generated = refl

stored : create_row pg 9 (txt "key-1") new_key empty ≡ (ok row, one_key)
unfolding create_row text_eq txt
stored = refl

enough : has_required_scope scope_public scope_public ≡ true
unfolding has_required_scope text_eq txt
enough = refl

two-Bytes : Bytes random
two-Bytes = (omega arith, (omega arith, tt))

created_key_is_served_example :
    api_key_auth same_text (λ hash. get_by_hash pg hash one_key) scope_public with_key ≡ serve row
unfolding create_row
created_key_is_served_example =
    created_key_is_served same_text pg pg scope_public (txt "") 5 random (txt "site") scope_public
      (txt "key-1") raw new_key row empty one_key (λ p. cc p) two-Bytes generated stored refl enough

one_key-IsConsistent : IsConsistent one_key
one_key-IsConsistent = record {
  jobs_fit = record { ids = tt; slugs = tt; enums = tt };
  apps_fit = record { ids = tt; rows_fit = tt };
  notes_fit = record { ids = tt; rows_fit = tt };
  key_ids = (refl, tt);
  key_hashes = (refl, tt);
  subscription_ids = tt;
}

known : get_by_hash pg (same_text (extract_api_key with_key)) one_key ≡ ok row
unfolding get_by_hash text_eq txt extract_api_key job_board.Text.trim_space
known = refl

deleted : delete_row pg (txt "key-1") one_key ≡ (ok tt, empty)
unfolding delete_row text_eq txt
deleted = refl

deleted_key_is_refused_example :
    api_key_auth same_text (λ hash. get_by_hash pg hash empty) scope_public with_key
    ≡ respond 401 (txt "INVALID_API_KEY")
deleted_key_is_refused_example =
    deleted_key_is_refused same_text pg pg scope_public with_key row one_key empty
      one_key-IsConsistent known refl deleted refl
