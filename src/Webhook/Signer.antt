-- ===== src/Webhook/Signer.antt =====
-- internal/webhook/signer.go. HMAC-SHA256 is a parameter, and so are the random bytes and the clock.
-- An int64, and a duration in nanoseconds, is its two's complement, a number below 2^64.
pub mod Verified
use job_board.Prelude.{
  ℕ, ◌+◌, ◌-◌, ◌*◌, ◌%◌, Bool, true, false, ◌&&◌, List, [], ◌∷◌, ◌++◌, Option, none, some, ltb,
  if◌then◌else◌,
}
use job_board.Text.{Text, txt, text_eq}
use job_board.Text.Decimal.{itoa}
use job_board.Domain.Types.{other, wrapped, Result, ok, err}
use job_board.Auth.{hex}

-- The sign of an int64, and its operations, which wrap around.
abbrev pub is_negative : ℕ → Bool
is_negative x = ltb 9223372036854775807 x

abbrev pub sub64 : ℕ → ℕ → ℕ
sub64 a b = (a + (18446744073709551616 - b)) % 18446744073709551616

abbrev pub mul64 : ℕ → ℕ → ℕ
mul64 a b = a * b % 18446744073709551616

-- a < b of two int64.
abbrev pub less64 : ℕ → ℕ → Bool
less64 a b =
    if is_negative a
    then (if is_negative b then ltb a b else true)
    else if is_negative b
    then false
    else ltb a b

-- `%d` of an int64.
unfoldable pub print_int64 : ℕ → Text
print_int64 x = if is_negative x then b'-' ∷ itoa (18446744073709551616 - x) else itoa x

abbrev secret_of : Option (List ℕ) → Result Text
secret_of none =
    err (wrapped (txt "failed to generate random secret") (other (txt "no random bytes")))
secret_of (some bytes) = ok (txt "whsec_" ++ hex bytes)

-- `GenerateSecret`; `random` is what rand.Read yields, `none` if it fails.
unfoldable pub generate_secret : Option (List ℕ) → Result Text
generate_secret random = secret_of random

-- Whether `now` is too far from `timestamp`.
unfoldable pub is_stale : ℕ → ℕ → ℕ → Bool
is_stale now timestamp tolerance =
    let diff = sub64 now timestamp in
    let distance = if is_negative diff then sub64 0 diff else diff in
    less64 0 tolerance && less64 tolerance (mul64 distance 1000000000)

module _ (hmac_sha256 : Text → Text → List ℕ) where
  -- `ComputeSignature`
  unfoldable pub compute_signature : Text → ℕ → Text → Text
  unfolding print_int64
  compute_signature secret timestamp raw_body =
      txt "sha256="
      ++ hex (hmac_sha256 secret (txt "t=" ++ (print_int64 timestamp ++ (txt "." ++ raw_body))))

  -- The headers that `executeDelivery` sets, at the time `timestamp`.
  unfoldable pub delivery_headers : Text → ℕ → Text → List (Text × Text)
  unfolding compute_signature print_int64
  delivery_headers secret timestamp raw_body =
      (txt "Content-Type", txt "application/json")
      ∷ (txt "X-JobBoard-Signature", compute_signature secret timestamp raw_body)
      ∷ (txt "X-JobBoard-Timestamp", print_int64 timestamp)
      ∷ []

  -- `VerifySignature`, at the Unix time `now`.
  unfoldable pub verify_signature : ℕ → Text → ℕ → Text → Text → ℕ → Bool
  unfolding is_stale compute_signature
  verify_signature now secret timestamp raw_body signature tolerance =
      if is_stale now timestamp tolerance
      then false
      else text_eq (compute_signature secret timestamp raw_body) signature
