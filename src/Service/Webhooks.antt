-- ===== src/Service/Webhooks.antt =====
-- internal/service/webhook_service.go
pub mod Registered
use job_board.Prelude.{
  ℕ, Bool, true, false, not, List, [], ◌∷◌, ◌++◌, Option, none, some, if◌then◌else◌, is_empty,
}
use job_board.Text.{Text, txt, text_eq, trim_space}
use job_board.Text.Decimal.{itoa}
use job_board.Domain.Types.{
  ErrorDetail, not_found, other, wrapped, validation_error, error_message, WebhookSubscription,
  Time, DomainError, Result, ok, err,
}
use job_board.Domain.Values.{Platform}
use job_board.Domain.Requests.{validate_webhook_subscription_input}
use job_board.Webhook.Signer.{generate_secret}
use job_board.Service.World.{SubscriptionRepository}
use job_board.Service.Jobs.{validation_message}

pub record CreateWebhookSubscriptionInput : Type 0 where
  pub target_url : Text
  pub secret_token : Option Text
  pub events : List Text

pub record WebhookTestResult : Type 0 where
  pub success : Bool
  pub status_code : ℕ
  pub duration_ms : ℕ
  pub message : Text
  pub response_body : Text

-- `webhook.DeliveryResult`
pub record DeliveryResult : Type 0 where
  pub success : Bool
  pub status_code : ℕ
  pub duration_ms : ℕ
  pub response_body : Text

-- `domain.WebhookPayload` with `domain.WebhookPingData`.
pub record PingPayload : Type 0 where
  pub id : Text
  pub created_at : Time
  pub message : Text
  pub timestamp : Time
  pub subscription_id : Text

-- What SendDirect gives: a result without an error, or an error with the result, if there is one.
pub data Sent : Type 0 where
  delivered : DeliveryResult → Sent
  unreachable : DomainError → Option DeliveryResult → Sent

-- The secret that is given, unless it is blank, or a new one.
unfoldable pub choose_secret : Option (List ℕ) → Option Text → Result Text
choose_secret random none = generate_secret random
choose_secret random (some secret) =
    if not (text_eq (trim_space secret) (txt ""))
    then ok (trim_space secret)
    else generate_secret random

abbrev found : Result (Option WebhookSubscription) → Result WebhookSubscription
found (err e) = err e
found (ok none) = err not_found
found (ok (some sub)) = ok sub

abbrev duration_of : Option DeliveryResult → ℕ
duration_of none = 0
duration_of (some result) = result.duration_ms

-- The result of a test.
unfoldable pub test_result : Sent → WebhookTestResult
test_result (unreachable e result) = record {
  success = false;
  status_code = 0;
  duration_ms = duration_of result;
  message = txt "Failed to reach webhook endpoint: " ++ error_message e;
  response_body = txt "";
}
test_result (delivered result) = record {
  success = result.success;
  status_code = result.status_code;
  duration_ms = result.duration_ms;
  message =
      if not result.success
      then txt "Webhook endpoint responded with HTTP " ++ itoa result.status_code
      else txt "Webhook ping delivered successfully";
  response_body = result.response_body;
}

-- The payload of a test, of the times at which its two clocks are read.
unfoldable pub ping : Text → Time → Time → WebhookSubscription → PingPayload
ping id now then_now sub = record {
  id = txt "evt_" ++ id;
  created_at = now;
  message = txt "Job Board webhook connectivity ping test";
  timestamp = then_now;
  subscription_id = sub.id;
}

-- The row that `CreateSubscription` hands to the repository; the database sets the times.
unfoldable pub new_subscription : Text → CreateWebhookSubscriptionInput → Text → WebhookSubscription
new_subscription id input secret = record {
  id = id;
  target_url = trim_space input.target_url;
  secret_token = secret;
  events = input.events;
  is_active = true;
  created_at = 0;
  updated_at = 0;
}

-- The service over a repository, which may be nil.
module _ {S : Type 0} (repo : Option (SubscriptionRepository S)) where
  abbrev pub register :
      Text → CreateWebhookSubscriptionInput → Result Text → S → Result WebhookSubscription × S
  register id input (err e) s = (err (wrapped (txt "failed to generate webhook secret") e), s)
  register id input (ok secret) s = elim repo [
    | none ↦ (ok (new_subscription id input secret), s)
    | some r ↦ r.create (new_subscription id input secret) s
  ]

  -- `CreateSubscription`, with the fresh id and random bytes that it draws.
  unfoldable pub create_subscription :
      Platform
      → Text
      → Option (List ℕ)
      → CreateWebhookSubscriptionInput
      → S
      → Result WebhookSubscription × S
  unfolding choose_secret new_subscription
  create_subscription P id random input s =
      let details =
        validate_webhook_subscription_input P input.target_url input.events input.secret_token in
      if not (is_empty details)
      then (err (validation_error validation_message details), s)
      else register id input (choose_secret random input.secret_token) s

  -- `GetSubscription`
  unfoldable pub get_subscription : Text → S → Result WebhookSubscription
  get_subscription id s = elim repo [ none ↦ err not_found | some r ↦ found (r.get_by_id id s) ]

  -- `ListSubscriptions`
  unfoldable pub list_subscriptions : S → Result (List WebhookSubscription)
  list_subscriptions s = elim repo [ none ↦ ok [] | some r ↦ r.list s ]

  -- `DeleteSubscription`
  unfoldable pub delete_subscription : Text → S → Result (Unit {0}) × S
  delete_subscription id s = elim repo [ none ↦ (err not_found, s) | some r ↦ r.delete id s ]

  abbrev test_of :
      Option (WebhookSubscription → PingPayload → Sent)
      → Text
      → Time
      → Time
      → Result WebhookSubscription
      → Result WebhookTestResult
  test_of send id now then_now (err e) = err e
  test_of none id now then_now (ok sub) = err (other (txt "webhook dispatcher not configured"))
  test_of (some send) id now then_now (ok sub) =
      ok (test_result (send sub (ping id now then_now sub)))

  -- `TestSubscription`; `send` is the dispatcher's SendDirect, if there is a dispatcher.
  unfoldable pub test_subscription :
      Option (WebhookSubscription → PingPayload → Sent)
      → Text
      → Time
      → Time
      → Text
      → S
      → Result WebhookTestResult
  unfolding get_subscription test_result ping
  test_subscription send fresh now then_now id s =
      test_of send fresh now then_now (get_subscription id s)

-- `DispatchEvent`; `send` is the dispatcher's Dispatch, if there is a dispatcher.
unfoldable pub dispatch_event :
    {D : Type 0} → Option (Text → D → Result (Unit {0}) × D) → Text → D → Result (Unit {0}) × D
dispatch_event none event d = (ok tt, d)
dispatch_event (some send) event d = send event d
