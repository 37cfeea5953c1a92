-- ===== src/Service/Webhooks/Registered.antt =====
-- What a call of CreateSubscription leads to.
use job_board.Prelude.{
  ℕ, ◌≡◌, refl, sym, true, false, Option-cases, ◌≢◌, not, List, [], Option, none, some, is_empty,
  inl, inr, Bool-cases, All,
}
use job_board.Text.{Text, txt, text_eq, trim_space}
use job_board.Text.Equality.{blank-eq-false}
use job_board.Domain.Types.{WebhookSubscription, Result, ok, err}
use job_board.Domain.Values.{Platform}
use job_board.Domain.Requests.{validate_webhook_subscription_input, SecretIsValid, TargetIsValid}
use job_board.Domain.Requests.Acceptance.{EventIsValid, validate_webhook_subscription_input-eq-nil}
use job_board.Webhook.Signer.{generate_secret}
use job_board.Service.World.{SubscriptionRepository}
use job_board.Service.Jobs.Created.{is_empty_sound}
use job_board.Service.Webhooks.{
  CreateWebhookSubscriptionInput, choose_secret, new_subscription, register, create_subscription,
}

generate_secret-ne :
    (random : Option (List ℕ)) (secret : Text) → generate_secret random ≡ ok secret → secret ≢ []
unfolding generate_secret txt
generate_secret-ne none secret e = cc
generate_secret-ne (some bytes) secret e = λ empty. cc

choose_secret-ne :
    (random : Option (List ℕ)) (given : Option Text) (secret : Text)
    → choose_secret random given ≡ ok secret
    → secret ≢ []
unfolding choose_secret
choose_secret-ne random none secret e = generate_secret-ne random secret e
choose_secret-ne random (some t) secret e = elim (Bool-cases (text_eq (trim_space t) (txt ""))) [
  | inl blank ↦ generate_secret-ne random secret (rw blank at e)
  | inr there ↦
      let same : trim_space t ≡ secret = cc (rw there at e) in
      rw (← same) ((blank-eq-false (trim_space t)).0 there)
]

-- What became of a new subscription: the repository gives it, or, where there is none, it is given as
-- it is and stored nowhere.
pub data Kept {S : Type 0} (repo : Option (SubscriptionRepository S)) (new : WebhookSubscription)
    (s : S) (sub : WebhookSubscription) (after : S) : Type 0 where
  stored :
      (r : SubscriptionRepository S)
      → repo ≡ some r
      → r.create new s ≡ (ok sub, after)
      → Kept repo new s sub after
  unstored : repo ≡ none → sub ≡ new → after ≡ s → Kept repo new s sub after

-- What a new subscription is made of.
pub record IsNew (id : Text) (input : CreateWebhookSubscriptionInput) (secret : Text)
    (new : WebhookSubscription) : Type 0 where
  pub named : new.id ≡ id
  pub url : new.target_url ≡ trim_space input.target_url
  pub token : new.secret_token ≡ secret
  pub topics : new.events ≡ input.events
  pub active : new.is_active ≡ true

new_subscription-IsNew :
    (id : Text) (input : CreateWebhookSubscriptionInput) (secret : Text)
    → IsNew id input secret (new_subscription id input secret)
unfolding new_subscription
new_subscription-IsNew id input secret = record {
  named = refl;
  url = refl;
  token = refl;
  topics = refl;
  active = refl;
}

-- The secret of a subscription: the given one, trimmed, or one from random bytes.
pub data Chosen (random : Option (List ℕ)) (secret : Text) : Option Text → Type 0 where
  given :
      (t : Text)
      → text_eq (trim_space t) (txt "") ≡ false
      → secret ≡ trim_space t
      → Chosen random secret (some t)
  none_given : generate_secret random ≡ ok secret → Chosen random secret none
  blank_given :
      (t : Text)
      → text_eq (trim_space t) (txt "") ≡ true
      → generate_secret random ≡ ok secret
      → Chosen random secret (some t)

choose_secret-Chosen :
    (random : Option (List ℕ)) (token : Option Text) (secret : Text)
    → choose_secret random token ≡ ok secret
    → Chosen random secret token
unfolding choose_secret
choose_secret-Chosen random none secret e = none_given e
choose_secret-Chosen random (some t) secret e =
    elim (Bool-cases (text_eq (trim_space t) (txt ""))) [
      | inl blank ↦ blank_given t blank (rw blank at e)
      | inr there ↦
          let same : trim_space t ≡ secret = cc (rw there at e) in given t there (sym same)
    ]

module _ (P : Platform) {S : Type 0} (repo : Option (SubscriptionRepository S)) where
  -- Everything that a call of CreateSubscription that succeeds has done.
  pub record IsRegistered (id : Text) (random : Option (List ℕ))
      (input : CreateWebhookSubscriptionInput) (s : S) (sub : WebhookSubscription) (after : S)
      : Type 0 where
    pub target : TargetIsValid P (trim_space input.target_url)
    pub events : (input.events ≢ []) × All EventIsValid input.events
    pub in_bounds : SecretIsValid P input.secret_token
    pub secret : Text
    pub chosen : Chosen random secret input.secret_token
    pub usable : secret ≢ []
    pub new : WebhookSubscription
    pub made : IsNew id input secret new
    pub kept : Kept repo new s sub after

  registered :
      (id : Text) (input : CreateWebhookSubscriptionInput) (chosen : Result Text) (s : S)
      (sub : WebhookSubscription) (after : S)
      → register repo id input chosen s ≡ (ok sub, after)
      → (secret : Text) × (chosen ≡ ok secret)
        × Kept repo (new_subscription id input secret) s sub after
  registered id input (err x) s sub after e = cc
  registered id input (ok secret) s sub after e = elim (Option-cases repo) [
    | inl absent ↦
        let both : (ok (new_subscription id input secret), s) ≡ (ok sub, after) = rw absent at e in
        (secret, refl, unstored absent (cc both) (cc both))
    | inr (r, there) ↦ (secret, refl, stored r there (rw there at e))
  ]

  -- A call of CreateSubscription that succeeds had a valid target, known events and a secret in
  -- bounds. It made an active subscription to these events at the trimmed target, with the trimmed
  -- secret that was given, or one from the random bytes where none was given or a blank one, and never
  -- with an empty one; it gives what the repository made of this subscription, or, where the service
  -- has no repository, the subscription itself, which it stores nowhere.
  pub create_subscription-IsRegistered :
      (id : Text) (random : Option (List ℕ)) (input : CreateWebhookSubscriptionInput) (s : S)
      (sub : WebhookSubscription) (after : S)
      → create_subscription repo P id random input s ≡ (ok sub, after)
      → IsRegistered id random input s sub after
  unfolding create_subscription
  create_subscription-IsRegistered id random input s sub after e =
      let details =
        validate_webhook_subscription_input P input.target_url input.events input.secret_token in
      elim (Bool-cases (not (is_empty details))) [
        | inl rejected ↦ cc (rw rejected at e)
        | inr accepted ↦
            let (target, (events, in_bounds)) =
              (validate_webhook_subscription_input-eq-nil P _ _ _).0
                (is_empty_sound details accepted) in
            let (secret, chosen, kept) =
              registered id input (choose_secret random input.secret_token) s sub after
                (rw accepted at e) in
            record {
              target = target;
              events = events;
              in_bounds = in_bounds;
              secret = secret;
              chosen = choose_secret-Chosen random input.secret_token secret chosen;
              usable = choose_secret-ne random input.secret_token secret chosen;
              new = new_subscription id input secret;
              made = new_subscription-IsNew id input secret;
              kept = kept;
            }
      ]
