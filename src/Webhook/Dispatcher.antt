-- ===== src/Webhook/Dispatcher.antt =====
-- internal/webhook/dispatcher.go: the queue, the worker, retries and deactivation. What the clock,
-- the network, the JSON encoder and the repository answer are arguments; log output is left out.
pub mod Steps
pub mod Policy
pub mod Bounds
pub mod Progress
use job_board.Prelude.{
  ℕ, zero, suc, ◌+◌, ◌≤◌, ◌<◌, Bool, true, false, not, ◌&&◌, ◌||◌, List, [], ◌∷◌, ◌++◌, Option,
  none, some, ltb, leb, ◌==◌, if◌then◌else◌, is_empty, length,
}
use job_board.Text.{Text, txt}
use job_board.Domain.Types.{WebhookSubscription, DomainError, Result, ok, err, wrapped, other}
use job_board.Webhook.Counts.{Counts, get, put}

-- What of the configuration the policy depends on. A delay is a number of seconds.
pub record Config : Type 0 where
  pub retry_delays : List ℕ
  pub queue_capacity : ℕ
  pub max_consecutive_failures : ℕ

abbrev pub default_retry_delays : List ℕ
default_retry_delays = 30 ∷ 300 ∷ 1800 ∷ []

-- `NewDispatcher`: the defaults for what is not configured; a count that is not positive is 0.
unfoldable pub new_config : Option (List ℕ) → ℕ → ℕ → Config
new_config delays capacity failures = record {
  retry_delays = elim delays [ none ↦ default_retry_delays | some ds ↦ ds ];
  queue_capacity = if capacity == 0 then 1024 else capacity;
  max_consecutive_failures = if failures == 0 then 50 else failures;
}

pub record Task : Type 0 where
  pub subscription : WebhookSubscription
  pub raw_body : Text
  pub attempt : ℕ

-- The dispatcher: the channel `queue`, the goroutines that wait to retry a task, each with its
-- delay, the map `failures`, whether `stopCh` is closed, whether the worker runs, and the
-- subscriptions that were handed to the repository's Update, the latest first.
pub record Dispatcher : Type 0 where
  pub queue : List Task
  pub waiting : List (ℕ × Task)
  pub failures : Counts
  pub stopped : Bool
  pub working : Bool
  pub updates : List WebhookSubscription

abbrev pub initial : Dispatcher
initial = record {
  queue = [];
  waiting = [];
  failures = [];
  stopped = false;
  working = false;
  updates = [];
}

-- `Start`, and `Stop`, which does nothing when it was called before.
unfoldable pub start : Dispatcher → Dispatcher
start d = record d { working = true }

unfoldable pub stop : Dispatcher → Dispatcher
stop d = record d { stopped = true }

-- The `select` of `Dispatch`: a send that does not block, and drops the task if the queue is full.
unfoldable pub send_or_drop : ℕ → Task → List Task → List Task
send_or_drop capacity task queue = if ltb (length queue) capacity then queue ++ task ∷ [] else queue

-- The loop of `Dispatch` over the subscriptions.
unfoldable pub enqueue_all : ℕ → Text → List WebhookSubscription → List Task → List Task
enqueue_all capacity raw_body [] queue = queue
enqueue_all capacity raw_body (sub ∷ subs) queue =
    let task : Task = record { subscription = sub; raw_body = raw_body; attempt = 0 } in
    enqueue_all capacity raw_body subs (send_or_drop capacity task queue)

abbrev dispatch_to :
    Config → List WebhookSubscription → Option Text → Dispatcher → Result (Unit {0}) × Dispatcher
dispatch_to cfg [] marshalled d = (ok tt, d)
dispatch_to cfg (sub ∷ subs) none d = (err (other (txt "failed to marshal webhook payload")), d)
dispatch_to cfg (sub ∷ subs) (some raw_body) d =
    (ok tt, record d { queue = enqueue_all cfg.queue_capacity raw_body (sub ∷ subs) d.queue })

-- `Dispatch`; `listed` is what ListActiveByEvent returns and `marshalled` what json.Marshal does.
unfoldable pub dispatch :
    Config
    → Result (List WebhookSubscription)
    → Option Text
    → Dispatcher
    → Result (Unit {0}) × Dispatcher
unfolding enqueue_all send_or_drop
dispatch cfg (err e) marshalled d =
    (err (wrapped (txt "failed to list active webhook subscriptions") e), d)
dispatch cfg (ok subs) marshalled d = dispatch_to cfg subs marshalled d

pub record DeliveryResult : Type 0 where
  pub status_code : ℕ
  pub success : Bool

-- `executeDelivery`: the result and whether there is an error; `none` where the request could not
-- be made or sent, else the status of the response.
unfoldable pub execute_delivery : Option ℕ → DeliveryResult × Bool
execute_delivery none = (record { status_code = 0; success = false }, true)
execute_delivery (some status) =
    (record { status_code = status; success = leb 200 status && ltb status 300 }, false)

-- `deactivateSubscription`
unfoldable pub deactivate : WebhookSubscription → Dispatcher → Dispatcher
deactivate sub d = record d { updates = record sub { is_active = false } ∷ d.updates }

abbrev pub get_delay? : List ℕ → ℕ → Option ℕ
get_delay? [] n = none
get_delay? (x ∷ xs) zero = some x
get_delay? (x ∷ xs) (suc n) = get_delay? xs n

-- The last part of `processTask`: a goroutine that waits, where an attempt remains.
unfoldable pub schedule_retry : Config → Task → Dispatcher → Dispatcher
schedule_retry cfg task d = elim (get_delay? cfg.retry_delays task.attempt) [
  | none ↦ d
  | some delay ↦ record d {
    waiting = d.waiting ++ (delay, record task { attempt = task.attempt + 1 }) ∷ [];
  }
]

-- `processTask`, with the response that its delivery gets.
unfoldable pub process_task : Config → Task → Option ℕ → Dispatcher → Dispatcher
unfolding execute_delivery deactivate schedule_retry
process_task cfg task response d =
    let (result, failed) = execute_delivery response in
    let sub_id = task.subscription.id in
    let consecutive_failures = get d.failures sub_id + 1 in
    let counted = record d { failures = put d.failures sub_id consecutive_failures } in
    if not failed && result.success
    then record d { failures = put d.failures sub_id 0 }
    else if result.status_code == 410
    then deactivate task.subscription d
    else if leb cfg.max_consecutive_failures consecutive_failures
    then deactivate task.subscription counted
    else schedule_retry cfg task counted
