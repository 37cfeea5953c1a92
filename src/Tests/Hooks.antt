-- ===== src/Tests/Hooks.antt =====
-- A signature, and a subscription. The code for a message is its own bytes.
use job_board.Prelude.{ℕ, ◌≡◌, ◌↔◌, ◌⊎◌, ◌≤◌, ◌*◌, refl, true, List, [], ◌∷◌, none, some, arith}
use job_board.Text.{Text, txt, text_eq}
use job_board.Domain.Types.{WebhookSubscription, ok}
use job_board.Webhook.Signer.{compute_signature, verify_signature}
use job_board.Webhook.Signer.Verified.{apart, verify_signature_iff}
use job_board.Service.World.{SubscriptionRepository}
use job_board.Service.Webhooks.{CreateWebhookSubscriptionInput, create_subscription}
use job_board.Service.Webhooks.Registered.{IsRegistered, create_subscription-IsRegistered}
use job_board.Tests.Platforms.{ascii_platform}

abbrev echo : Text → Text → List ℕ
echo secret message = message

-- Five seconds later, with a tolerance of ten.
verify_signature_iff_example :
    (verify_signature echo 105 (txt "s") 100 (txt "{}") (txt "sha256=") 10000000000 ≡ true) ↔ (
      (txt "sha256=" ≡ compute_signature echo (txt "s") 100 (txt "{}"))
      × ((◌≡◌ {A = ℕ} 10000000000 0)
          ⊎ ((9223372036854775808 ≤ 10000000000) ⊎ (apart 105 100 * 1000000000 ≤ 10000000000))))
verify_signature_iff_example =
    verify_signature_iff echo 105 (txt "s") 100 (txt "{}") (txt "sha256=") 10000000000 (omega arith)
      (omega arith) (omega arith) (omega arith)

signed_is_verified :
    verify_signature echo 105
      (txt "s")
      100
      (txt "{}")
      (compute_signature echo (txt "s") 100 (txt "{}"))
      10000000000
    ≡ true
unfolding verify_signature text_eq txt job_board.Auth.hex job_board.Text.Decimal.itoa
signed_is_verified = refl

abbrev list_repo : SubscriptionRepository (List WebhookSubscription)
list_repo = record {
  create = λ sub s. (ok sub, sub ∷ s);
  get_by_id = λ id s. ok none;
  list = λ s. ok s;
  delete = λ id s. (ok tt, s);
}

abbrev input : CreateWebhookSubscriptionInput
input = record {
  target_url = txt " https://example.com/hook";
  secret_token = none;
  events = txt "job.published" ∷ [];
}

abbrev hook : WebhookSubscription
hook = record {
  id = txt "sub-1";
  target_url = txt "https://example.com/hook";
  secret_token = txt "whsec_01";
  events = txt "job.published" ∷ [];
  is_active = true;
  created_at = 0;
  updated_at = 0;
}

registration :
    create_subscription (some list_repo) ascii_platform (txt "sub-1") (some (1 ∷ [])) input []
    ≡ (ok hook, hook ∷ [])
unfolding create_subscription job_board.Domain.Requests.validate_webhook_subscription_input text_eq
    job_board.Text.trim_space txt job_board.Text.len job_board.Domain.Report.report_if
    job_board.Domain.Values.is_valid_url job_board.Text.has_prefix job_board.Text.drop_prefix
    job_board.Domain.Formats.is_valid_webhook_event job_board.Webhook.Signer.generate_secret
    job_board.Auth.hex
registration = refl

create_subscription-IsRegistered_example :
    IsRegistered ascii_platform
      (some list_repo)
      (txt "sub-1")
      (some (1 ∷ []))
      input
      []
      hook
      (hook ∷ [])
create_subscription-IsRegistered_example =
    create_subscription-IsRegistered ascii_platform (some list_repo) (txt "sub-1") (some (1 ∷ []))
      input [] hook (hook ∷ []) registration
