-- ===== src/Webhook/Signer/Verified.antt =====
-- Which signatures VerifySignature accepts.
use job_board.Prelude.{
  ℕ, ◌+◌, ◌-◌, ◌*◌, ◌≤◌, ◌<◌, ◌≡◌, ◌↔◌, ◌⊎◌, true, not, ◌&&◌, List, if◌then◌else◌, ltb, arith,
}
use job_board.Text.{Text}
use job_board.Text.Equality.{text_eq_sound, text_eq_refl}
use job_board.Webhook.Signer.{sub64, is_negative, compute_signature, is_stale, verify_signature}

-- The distance of two times on the number line, in seconds.
abbrev pub apart : ℕ → ℕ → ℕ
apart a b = (a - b) + (b - a)

distance_lem :
    (now timestamp : ℕ)
    → now < 9223372036854775808
    → timestamp < 9223372036854775808
    → (if is_negative (sub64 now timestamp)
        then sub64 0 (sub64 now timestamp)
        else sub64 now timestamp)
      ≡ apart now timestamp
distance_lem now timestamp h k = ground arith

is_stale_lem :
    (now timestamp tolerance : ℕ)
    → now < 9223372036854775808
    → timestamp < 9223372036854775808
    → tolerance < 18446744073709551616
    → apart now timestamp ≤ 9223372036
    → is_stale now timestamp tolerance ≡ (
        ltb 0 tolerance
        && not (is_negative tolerance)
        && ltb tolerance (apart now timestamp * 1000000000))
unfolding is_stale
is_stale_lem now timestamp tolerance h k l near = rw (distance_lem now timestamp h k) (ground arith)

-- With both times from 1970 on and at most 9223372036 seconds apart, and any tolerance in int64, in
-- two's complement, VerifySignature accepts exactly the signature that ComputeSignature gives for the
-- same secret, time and body, provided that the tolerance is 0 or negative or that the times are at
-- most the tolerance apart.
pub verify_signature_iff :
    (hmac_sha256 : Text → Text → List ℕ) (now : ℕ) (secret : Text) (timestamp : ℕ)
    (raw_body signature : Text) (tolerance : ℕ)
    → now < 9223372036854775808
    → timestamp < 9223372036854775808
    → tolerance < 18446744073709551616
    → apart now timestamp ≤ 9223372036
    → (verify_signature hmac_sha256 now secret timestamp raw_body signature tolerance ≡ true) ↔ (
        (signature ≡ compute_signature hmac_sha256 secret timestamp raw_body)
        × ((tolerance ≡ 0)
            ⊎ ((9223372036854775808 ≤ tolerance) ⊎ (apart now timestamp * 1000000000 ≤ tolerance))))
unfolding verify_signature
verify_signature_iff hmac_sha256 now secret timestamp raw_body signature tolerance h k l near =
    let stale = is_stale_lem now timestamp tolerance h k l near in
    let expected = compute_signature hmac_sha256 secret timestamp raw_body in
    (
      λ e. ground (arith, stale, text_eq_sound expected signature),
      λ h. ground (arith, stale, text_eq_refl expected),
    )
