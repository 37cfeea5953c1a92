-- ===== src/Auth/Admitted.antt =====
-- Which requests the middleware hands on, and with which key.
use job_board.Prelude.{
  ℕ, ◌⊎◌, ◌≡◌, refl, ◌≢◌, ◌↔◌, true, false, List, [], ◌∷◌, some, arith, inl, inr, Bool-cases,
}
use job_board.Text.{Text, txt, text_eq, trim_space}
use job_board.Text.Equality.{text_eq_sound, text_eq_refl, blank-eq-false}
use job_board.Domain.Types.{
  ApiKey, ApiKeyScope, scope_public, scope_admin, Result, ok, err, Time, not_found,
}
use job_board.Auth.{
  KeyResult, fine, fail, validate_key_format, Headers, extract_api_key, has_required_scope, serve,
  respond, api_key_auth, admit, check_format, generate_key,
}
use job_board.Auth.Generated.{Bytes, generate_key-KeyIsGood}

module _ (sha256_hex : Text → Text) (get_by_hash : Text → Result ApiKey) where
  -- Everything that a served request has: a key in its headers, of a known format, stored under its
  -- hash, whose scope is enough.
  pub record IsAdmitted (required : ApiKeyScope) (r : Headers) (key : ApiKey) : Type 0 where
    pub given : extract_api_key r ≢ []
    pub format : (scope : ApiKeyScope) × (validate_key_format (extract_api_key r) ≡ fine scope)
    pub stored : get_by_hash (sha256_hex (extract_api_key r)) ≡ ok key
    pub enough : has_required_scope key.scope required ≡ true

  admit-serve :
      (required : ApiKeyScope) (found : Result ApiKey) (key : ApiKey)
      → (admit sha256_hex get_by_hash required found ≡ serve key)
        ↔ ((found ≡ ok key) × (has_required_scope key.scope required ≡ true))
  admit-serve required (ok k) key = (λ e. ground arith, λ h. ground arith)
  admit-serve required (err x) key = (λ e. ground arith, λ h. cc)

  check_format-serve :
      (required : ApiKeyScope) (raw : Text) (f : KeyResult ApiKeyScope) (key : ApiKey)
      → (check_format sha256_hex get_by_hash required raw f ≡ serve key) ↔ (
          ((scope : ApiKeyScope) × (f ≡ fine scope))
          × ((get_by_hash (sha256_hex raw) ≡ ok key)
              × (has_required_scope key.scope required ≡ true)))
  check_format-serve required raw (fail x) key = (λ e. cc, λ h. let (s, p) = h.0 in cc)
  check_format-serve required raw (fine s) key =
      let served = admit-serve required (get_by_hash (sha256_hex raw)) key in
      (λ e. ((s, refl), served.0 e), λ h. served.1 h.1)

  api_key_auth_sound :
      (required : ApiKeyScope) (r : Headers) (key : ApiKey)
      → api_key_auth sha256_hex get_by_hash required r ≡ serve key
      → IsAdmitted required r key
  unfolding api_key_auth
  api_key_auth_sound required r key e = elim (Bool-cases (text_eq (extract_api_key r) (txt ""))) [
    | inl empty ↦ cc (rw empty at e)
    | inr given ↦
        let (format, rest) =
          (check_format-serve required (extract_api_key r) (validate_key_format (extract_api_key r))
              key).0
            (rw given at e) in
        record {
          given = (blank-eq-false (extract_api_key r)).0 given;
          format = format;
          stored = rest.0;
          enough = rest.1;
        }
  ]

  api_key_auth_complete :
      (required : ApiKeyScope) (r : Headers) (key : ApiKey)
      → IsAdmitted required r key
      → api_key_auth sha256_hex get_by_hash required r ≡ serve key
  unfolding api_key_auth
  api_key_auth_complete required r key h =
      let given = (blank-eq-false (extract_api_key r)).1 h.given in
      rw given (
        (check_format-serve required (extract_api_key r) (validate_key_format (extract_api_key r))
            key).1
          (h.format, (h.stored, h.enough)))

  -- The middleware hands a request on with a key exactly when the request carries the key, the key
  -- has a known format, it is stored under its hash, and its scope is enough.
  pub api_key_auth-eq-serve :
      (required : ApiKeyScope) (r : Headers) (key : ApiKey)
      → (api_key_auth sha256_hex get_by_hash required r ≡ serve key) ↔ IsAdmitted required r key
  api_key_auth-eq-serve required r key =
      (api_key_auth_sound required r key, api_key_auth_complete required r key)

  check_format-refused :
      (required : ApiKeyScope) (raw : Text) (f : KeyResult ApiKeyScope)
      → get_by_hash (sha256_hex raw) ≡ err not_found
      → check_format sha256_hex get_by_hash required raw f ≡ respond 401 (txt "INVALID_API_KEY")
  check_format-refused required raw (fail x) e = refl
  check_format-refused required raw (fine scope) e = rw e refl

  -- A request whose key, if it has one, is not stored.
  pub api_key_auth-refused :
      (required : ApiKeyScope) (r : Headers)
      → get_by_hash (sha256_hex (extract_api_key r)) ≡ err not_found
      → api_key_auth sha256_hex get_by_hash required r ≡ respond 401 (txt "INVALID_API_KEY")
  unfolding api_key_auth
  api_key_auth-refused required r e = elim (Bool-cases (text_eq (extract_api_key r) (txt ""))) [
    | inl empty ↦ rw empty refl
    | inr given ↦ rw given (
        check_format-refused required (extract_api_key r) (validate_key_format (extract_api_key r))
          e)
  ]

-- An admin scope is enough for everything, a public one for the public endpoints, and nothing else
-- is enough.
has_required_scope_iff :
    (actual required : ApiKeyScope)
    → (has_required_scope actual required ≡ true)
      ↔ ((actual ≡ scope_admin) ⊎ ((actual ≡ scope_public) × (required ≡ scope_public)))
unfolding has_required_scope
has_required_scope_iff actual required = (
  (λ e. ground (
    arith,
    text_eq_sound actual scope_admin,
    text_eq_sound actual scope_public,
    text_eq_sound required scope_public,
  )),
  (λ h. ground (arith, text_eq_refl scope_admin, text_eq_refl scope_public)),
)

format-given :
    (raw : Text) {scope : ApiKeyScope}
    → validate_key_format raw ≡ fine scope
    → text_eq raw (txt "") ≡ false
format-given [] e = unfold validate_key_format trim_space txt text_eq in cc e
format-given (c ∷ raw) e = unfold txt text_eq in refl

-- A generated key, sent in X-API-Key, whatever row with its scope is stored under its hash.
pub generated_key_is_admitted :
    (sha256_hex : Text → Text) (get_by_hash : Text → Result ApiKey) (required : ApiKeyScope)
    (authorization : Text) (now : Time) (bytes : List ℕ) (name : Text) (scope : ApiKeyScope)
    (raw_key : Text) (key row : ApiKey)
    → bytes ≢ []
    → Bytes bytes
    → generate_key sha256_hex now (some bytes) name scope ≡ fine (raw_key, key)
    → get_by_hash key.key_hash ≡ ok row
    → row.scope ≡ key.scope
    → has_required_scope scope required ≡ true
    → api_key_auth sha256_hex get_by_hash required
        (record { x_api_key = raw_key; authorization = authorization })
      ≡ serve row
generated_key_is_admitted sha256_hex get_by_hash required authorization now bytes name scope raw_key
      key row ne h e stored same_scope enough =
    let good = generate_key-KeyIsGood sha256_hex now bytes name scope raw_key key ne h e in
    let r : Headers = record { x_api_key = raw_key; authorization = authorization } in
    let given = format-given raw_key good.format in
    let same : extract_api_key r ≡ raw_key = unfold extract_api_key in rw good.trimmed (rw given) in
    api_key_auth_complete sha256_hex get_by_hash required r row (record {
      given = (blank-eq-false (extract_api_key r)).0 (rw same given);
      format = (scope, rw same good.format);
      stored = rw (same, ← good.hash) stored;
      enough = rw (same_scope, good.key_scope) enough;
    })
