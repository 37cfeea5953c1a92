-- ===== src/Auth/Generated.antt =====
-- A generated key has the format that ValidateKeyFormat asks for, with the scope asked for.
use job_board.Prelude.{
  ℕ, ◌+◌, ◌/◌, ◌%◌, ◌<◌, ◌≡◌, refl, ◌≢◌, true, false, List, [], ◌∷◌, ◌++◌, some, arith, All,
  All-append,
}
use job_board.Text.{Text, txt, text_eq, len, utf8_width, trim_space, is_space, has_prefix}
use job_board.Text.Trim.{trim_of_none}
use job_board.Text.Equality.{text_eq_sound, has_prefix-append}
use job_board.Domain.Types.{ApiKey, ApiKeyScope, scope_public, scope_admin, Time}
use job_board.Auth.{
  fine, prefix_admin, prefix_public, hex, hex_digit, generate_key, validate_key_format,
}

-- Bytes of the random source.
abbrev pub Bytes : List ℕ → Type 0
Bytes = All (λ b. b < 256)

hex_digit-is_space : (n : ℕ) → n < 16 → is_space (hex_digit n) ≡ false
unfolding is_space hex_digit
hex_digit-is_space n h = ground arith

hex-is_space : (bytes : List ℕ) → Bytes bytes → All (λ c. is_space c ≡ false) (hex bytes)
unfolding hex
hex-is_space [] h = tt
hex-is_space (b ∷ bytes) (lt, h) = (
  hex_digit-is_space (b / 16) (omega arith),
  (hex_digit-is_space (b % 16) (omega arith), hex-is_space bytes h),
)

len-append : (s t : Text) → len (s ++ t) ≡ len s + len t
unfolding len
len-append [] t = omega arith
len-append (c ∷ s) t = omega (arith, len-append s t)

len-hex : (b : ℕ) (bytes : List ℕ) → 0 < len (hex (b ∷ bytes))
unfolding hex len utf8_width
len-hex b bytes = ground arith

prefix_admin-is_space : All (λ c. is_space c ≡ false) prefix_admin
unfolding txt is_space
prefix_admin-is_space = (refl, (refl, (refl, (refl, (refl, (refl, (refl, tt)))))))

prefix_public-is_space : All (λ c. is_space c ≡ false) prefix_public
unfolding txt is_space
prefix_public-is_space = (refl, (refl, (refl, (refl, (refl, (refl, (refl, tt)))))))

trim_key :
    (pre : Text) (bytes : List ℕ)
    → All (λ c. is_space c ≡ false) pre
    → Bytes bytes
    → trim_space (pre ++ hex bytes) ≡ pre ++ hex bytes
unfolding trim_space
trim_key pre bytes plain h =
    trim_of_none is_space _ (All-append _ pre (hex bytes) plain (hex-is_space bytes h))

longer_key : (pre : Text) (bytes : List ℕ) → bytes ≢ [] → len pre < len (pre ++ hex bytes)
longer_key pre [] ne = absurd (ne refl)
longer_key pre (b ∷ bytes) ne = omega (arith, len-append pre (hex (b ∷ bytes)), len-hex b bytes)

format_admin :
    (t : Text)
    → trim_space t ≡ t
    → text_eq t (txt "") ≡ false
    → has_prefix t prefix_admin ≡ true
    → len prefix_admin < len t
    → validate_key_format t ≡ fine scope_admin
unfolding validate_key_format
format_admin t e given admin long = rw (e, given, admin) (ground arith)

format_public :
    (t : Text)
    → trim_space t ≡ t
    → text_eq t (txt "") ≡ false
    → has_prefix t prefix_admin ≡ false
    → has_prefix t prefix_public ≡ true
    → len prefix_public < len t
    → validate_key_format t ≡ fine scope_public
unfolding validate_key_format
format_public t e given other public long = rw (e, given, other, public) (ground arith)

pub validate-prefix_admin :
    (bytes : List ℕ)
    → bytes ≢ []
    → Bytes bytes
    → validate_key_format (prefix_admin ++ hex bytes) ≡ fine scope_admin
validate-prefix_admin bytes ne h =
    format_admin _ (trim_key prefix_admin bytes prefix_admin-is_space h)
      (unfold txt text_eq in refl) (has_prefix-append prefix_admin (hex bytes))
      (longer_key prefix_admin bytes ne)

pub validate-prefix_public :
    (bytes : List ℕ)
    → bytes ≢ []
    → Bytes bytes
    → validate_key_format (prefix_public ++ hex bytes) ≡ fine scope_public
validate-prefix_public bytes ne h =
    format_public _ (trim_key prefix_public bytes prefix_public-is_space h)
      (unfold txt text_eq in refl) (unfold txt has_prefix in refl)
      (has_prefix-append prefix_public (hex bytes)) (longer_key prefix_public bytes ne)

-- What a generated key is: it has the format of its scope, and the stored hash is its own.
pub record KeyIsGood (sha256_hex : Text → Text) (scope : ApiKeyScope) (raw_key : Text)
    (key : ApiKey) : Type 0 where
  pub format : validate_key_format raw_key ≡ fine scope
  pub hash : key.key_hash ≡ sha256_hex raw_key
  pub key_scope : key.scope ≡ scope
  pub trimmed : trim_space raw_key ≡ raw_key

-- A key that GenerateKey makes from at least one random byte passes ValidateKeyFormat with the
-- scope it was made for, carries that scope, has no space at its ends, and is stored under the hash
-- of the raw key.
pub generate_key-KeyIsGood :
    (sha256_hex : Text → Text) (now : Time) (bytes : List ℕ) (name : Text) (scope : ApiKeyScope)
    (raw_key : Text) (key : ApiKey)
    → bytes ≢ []
    → Bytes bytes
    → generate_key sha256_hex now (some bytes) name scope ≡ fine (raw_key, key)
    → KeyIsGood sha256_hex scope raw_key key
unfolding generate_key
generate_key-KeyIsGood sha256_hex now bytes name scope raw_key key ne h e = ground (
  arith,
  validate-prefix_admin bytes ne h,
  validate-prefix_public bytes ne h,
  text_eq_sound scope scope_admin,
  text_eq_sound scope scope_public,
  trim_key prefix_admin bytes prefix_admin-is_space h,
  trim_key prefix_public bytes prefix_public-is_space h,
)
