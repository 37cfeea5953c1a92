-- ===== src/Webhook/Dispatcher/Policy.antt =====
-- What one delivery does to the counters, the retries and the subscription, on every branch.
use job_board.Prelude.{
  ℕ, ◌+◌, ◌≤◌, ◌<◌, ◌≡◌, refl, ◌≢◌, inl, inr, false, [], ◌∷◌, ◌++◌, Option, none, some, arith, ap,
  sym, Bool-cases, Option-cases, leb, ltb, ◌==◌, ◌&&◌, if◌then◌else◌,
}
use job_board.Text.{Text, text_eq}
use job_board.Text.Equality.{text_eq_sound}
use job_board.Domain.Types.{WebhookSubscription}
use job_board.Webhook.Counts.{Counts, get, put}
use job_board.Webhook.Dispatcher.{
  Config, Task, Dispatcher, execute_delivery, process_task, schedule_retry, deactivate, get_delay?,
}

-- A response that counts as a success: a status from 200 to 299.
abbrev pub Succeeds : Option ℕ → Type 0
Succeeds none = ⊥
Succeeds (some status) = (200 ≤ status) × (status < 300)

-- The failures in a row that a delivery is the next of.
abbrev pub count : Task → Dispatcher → ℕ
count task d = get d.failures task.subscription.id

abbrev pub retired : Task → WebhookSubscription
retired task = record task.subscription { is_active = false }

abbrev one_more : Task → Dispatcher → Dispatcher
one_more task d = record d { failures = put d.failures task.subscription.id (count task d + 1) }

-- What a delivery may lead to. The queue and the flags never change.
pub data Outcome (cfg : Config) (task : Task) (d : Dispatcher)
    : Option ℕ → Dispatcher → Type 0 where
  succeeded :
      {status : ℕ}
      → Succeeds (some status)
      → Outcome cfg task d
          (some status)
          (record d { failures = put d.failures task.subscription.id 0 })
  gone : Outcome cfg task d (some 410) (record d { updates = retired task ∷ d.updates })
  too_many_failures :
      {response : Option ℕ}
      → ¬ Succeeds response
      → response ≢ some 410
      → cfg.max_consecutive_failures ≤ count task d + 1
      → Outcome cfg task d response
          (record (one_more task d) { updates = retired task ∷ d.updates })
  retried :
      {response : Option ℕ} {delay : ℕ}
      → ¬ Succeeds response
      → response ≢ some 410
      → count task d + 1 < cfg.max_consecutive_failures
      → get_delay? cfg.retry_delays task.attempt ≡ some delay
      → Outcome cfg task d response (record (one_more task d) {
        waiting = d.waiting ++ (delay, record task { attempt = task.attempt + 1 }) ∷ [];
      })
  last_attempt_failed :
      {response : Option ℕ}
      → ¬ Succeeds response
      → response ≢ some 410
      → count task d + 1 < cfg.max_consecutive_failures
      → get_delay? cfg.retry_delays task.attempt ≡ none
      → Outcome cfg task d response (one_more task d)

failed-Outcome :
    (cfg : Config) (task : Task) (d : Dispatcher) (response : Option ℕ)
    → ¬ Succeeds response
    → response ≢ some 410
    → Outcome cfg task d response (
        if leb cfg.max_consecutive_failures (count task d + 1)
        then deactivate task.subscription (one_more task d)
        else schedule_retry cfg task (one_more task d))
unfolding deactivate schedule_retry
failed-Outcome cfg task d response bad other =
    elim (Bool-cases (leb cfg.max_consecutive_failures (count task d + 1))) [
      | inl many ↦ rw many (too_many_failures bad other (ground arith))
      | inr few ↦ elim (Option-cases (get_delay? cfg.retry_delays task.attempt)) [
        | inl over ↦
            rw few (rw (schedule_retry, over) (last_attempt_failed bad other (ground arith) over))
        | inr (delay, e) ↦ rw few (rw (schedule_retry, e) (retried bad other (ground arith) e))
      ]
    ]

-- What processTask does, on every branch: a success resets the counter of the subscription, 410 Gone
-- deactivates it, and any other failure counts one more, and then deactivates it from the threshold
-- on, and else retries after the delay of this attempt, if there is one.
pub process_task-Outcome :
    (cfg : Config) (task : Task) (response : Option ℕ) (d : Dispatcher)
    → Outcome cfg task d response (process_task cfg task response d)
unfolding process_task
process_task-Outcome cfg task none d =
    unfold execute_delivery in failed-Outcome cfg task d none (λ p. p) (λ p. cc p)
process_task-Outcome cfg task (some status) d =
    elim (Bool-cases (leb 200 status && ltb status 300)) [
      | inl good ↦ unfold execute_delivery in rw good (succeeded (ground arith))
      | inr bad ↦ elim (Bool-cases (status == 410)) [
        | inl is_gone ↦
            let same : status ≡ 410 = ground arith in
            rw same (unfold execute_delivery deactivate in gone)
        | inr other ↦
            unfold execute_delivery in
            rw (bad, other)
              (failed-Outcome cfg task d (some status) (λ p. ground arith) (λ p. ground arith))
      ]
    ]

-- The failures in a row that a subscription has after a response, `n` before it.
pub next_count : Option ℕ → ℕ → ℕ
next_count none n = n + 1
next_count (some status) n =
    if leb 200 status && ltb status 300 then 0 else if status == 410 then n else n + 1

counted_lem :
    (m : Counts) (k id : Text) (n next : ℕ)
    → n ≡ next
    → get (put m k n) id ≡ (if text_eq k id then next else get m id)
unfolding get put
counted_lem m k id n next e = rw e refl

kept_lem : (m : Counts) (k id : Text) → get m id ≡ (if text_eq k id then get m k else get m id)
kept_lem m k id = elim (Bool-cases (text_eq k id)) [
  | inl same ↦ rw same (ap (get m) (sym (text_eq_sound k id same)))
  | inr other ↦ rw other refl
]

next_count-failed :
    (response : Option ℕ) (n : ℕ)
    → ¬ Succeeds response
    → response ≢ some 410
    → n + 1 ≡ next_count response n
unfolding next_count
next_count-failed none n bad other = refl
next_count-failed (some status) n bad other = ground arith

Outcome-failures :
    (cfg : Config) (task : Task) (d : Dispatcher) (id : Text) {response : Option ℕ}
    {out : Dispatcher}
    → Outcome cfg task d response out
    → get out.failures id ≡ (
        if text_eq task.subscription.id id
        then next_count response (count task d)
        else get d.failures id)
Outcome-failures cfg task d id (succeeded good) =
    counted_lem d.failures task.subscription.id id _ _ (unfold next_count in ground arith)
Outcome-failures cfg task d id gone =
    unfold next_count in kept_lem d.failures task.subscription.id id
Outcome-failures cfg task d id (too_many_failures bad other _) =
    counted_lem d.failures task.subscription.id id _ _ (next_count-failed _ _ bad other)
Outcome-failures cfg task d id (retried bad other _ _) =
    counted_lem d.failures task.subscription.id id _ _ (next_count-failed _ _ bad other)
Outcome-failures cfg task d id (last_attempt_failed bad other _ _) =
    counted_lem d.failures task.subscription.id id _ _ (next_count-failed _ _ bad other)

-- The counter of the subscription is reset by a success, kept by 410 Gone, and raised by one by
-- every other failure; no other counter changes.
process_task-failures :
    (cfg : Config) (task : Task) (response : Option ℕ) (d : Dispatcher) (id : Text)
    → get (process_task cfg task response d).failures id ≡ (
        if text_eq task.subscription.id id
        then next_count response (count task d)
        else get d.failures id)
process_task-failures cfg task response d id =
    Outcome-failures cfg task d id (process_task-Outcome cfg task response d)
