-- ===== src/Api/Webhooks.antt =====
-- internal/api/v1/admin.go: the handlers of webhook subscriptions. The webhook service of a handler
-- may be nil, which is `available ≡ false`.
use job_board.Prelude.{ℕ, Bool, true, List, Option, none, some, if◌then◌else◌}
use job_board.Text.{Text, txt}
use job_board.Domain.Types.{WebhookSubscription, Time}
use job_board.Domain.Values.{Platform}
use job_board.Service.World.{SubscriptionRepository}
use job_board.Service.Webhooks
use job_board.Service.Webhooks.{
  CreateWebhookSubscriptionInput, WebhookTestResult, PingPayload, Sent, create_subscription,
  list_subscriptions, test_subscription,
}
use job_board.Api.Responses.{Response, answer, broken, bad_body, respond_error, respond}
use job_board.Api.Public.{only_internal, or_missing}
use job_board.Api.Admin.{with_id, created, deleted}

abbrev no_subscription : Text
no_subscription = txt "The requested webhook subscription was not found."

abbrev unavailable {ℓ} : {A : Type ℓ} → Response A
unavailable = broken (txt "Webhook service not available.")

module _ {S : Type 0} (repo : Option (SubscriptionRepository S)) (available : Bool) where
  abbrev subscribe_decoded :
      Platform
      → Text
      → Option (List ℕ)
      → Option CreateWebhookSubscriptionInput
      → S
      → Response WebhookSubscription × S
  subscribe_decoded P id random none s = (bad_body, s)
  subscribe_decoded P id random (some input) s =
      let done = create_subscription repo P id random input s in
      (
        respond
            (record (only_internal (txt "Failed to create webhook subscription.")) {
              validates = true;
            })
            (created (txt "/v1/admin/webhooks/") (λ sub. sub.id)) done.0,
        done.1,
      )

  -- `CreateWebhook`, with the fresh id and random bytes of the service.
  unfoldable pub create_webhook_handler :
      Platform
      → Text
      → Option (List ℕ)
      → Option CreateWebhookSubscriptionInput
      → S
      → Response WebhookSubscription × S
  unfolding respond create_subscription
  create_webhook_handler P id random body s =
      if available then subscribe_decoded P id random body s else (unavailable, s)

  -- `ListWebhooks`
  unfoldable pub list_webhooks_handler : S → Response (List WebhookSubscription)
  unfolding respond list_subscriptions
  list_webhooks_handler s =
      if available
      then respond (only_internal (txt "Failed to retrieve webhook subscriptions."))
          (answer 200 none) (list_subscriptions repo s)
      else unavailable

  -- `DeleteWebhook`
  unfoldable pub delete_webhook_handler : Text → S → Response (Unit {0}) × S
  unfolding respond_error Webhooks.delete_subscription
  delete_webhook_handler id s =
      if available
      then with_id id no_subscription (λ r. (r, s))
          (λ trimmed.
            let done = Webhooks.delete_subscription repo trimmed s in
            (
              deleted (or_missing no_subscription (txt "Failed to delete webhook subscription."))
                  done.0,
              done.1,
            ))
      else (unavailable, s)

  -- `TestWebhook`
  unfoldable pub test_webhook_handler :
      Option (WebhookSubscription → PingPayload → Sent)
      → Text
      → Time
      → Time
      → Text
      → S
      → Response WebhookTestResult
  unfolding respond test_subscription
  test_webhook_handler send fresh now then_now id s =
      if available
      then with_id id no_subscription (λ r. r)
          (λ trimmed.
            respond (or_missing no_subscription (txt "Failed to execute webhook test ping."))
              (answer 200 none) (test_subscription repo send fresh now then_now trimmed s))
      else unavailable
