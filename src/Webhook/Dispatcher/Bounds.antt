-- ===== src/Webhook/Dispatcher/Bounds.antt =====
-- What holds in every reachable state: the queue keeps its capacity, and no task has had more
-- attempts than there are retry delays.
use job_board.Prelude.{
  ℕ, zero, suc, ◌+◌, ◌≤◌, ◌<◌, ◌≡◌, refl, Bool, true, false, List, [], ◌∷◌, ◌++◌, Option, none,
  some, arith, length, length-append, ltb, if◌then◌else◌, All, All-append, inl, inr, Bool-cases,
  Option-cases, ◌⊎◌, not, ◌&&◌, ◌==◌, leb,
}
use job_board.Text.{Text}
use job_board.Domain.Types.{WebhookSubscription, Result, ok, err}
use job_board.Webhook.Counts.{Counts, get, put}
use job_board.Webhook.Dispatcher.{
  Config, Task, Dispatcher, initial, start, stop, enqueue_all, send_or_drop, dispatch, process_task,
  schedule_retry, execute_delivery, get_delay?,
}
use job_board.Webhook.Dispatcher.Steps.{
  Step, starts, stops, dispatches, delivers, retries, gives_up, quits, Reach, here, next,
}

-- A delivery leaves the queue alone, and adds at most the task itself, with its next attempt.
pub record Shape (cfg : Config) (task : Task) (d out : Dispatcher) : Type 0 where
  pub queue : out.queue ≡ d.queue
  pub waiting :
      (out.waiting ≡ d.waiting)
      ⊎ ((delay : ℕ) × (get_delay? cfg.retry_delays task.attempt ≡ some delay)
          × (out.waiting ≡ d.waiting ++ (delay, record task { attempt = task.attempt + 1 }) ∷ []))

if-Shape :
    (cfg : Config) (task : Task) (d : Dispatcher) (b : Bool) {x y : Dispatcher}
    → Shape cfg task d x
    → Shape cfg task d y
    → Shape cfg task d (if b then x else y)
if-Shape cfg task d true p q = p
if-Shape cfg task d false p q = q

schedule_retry-Shape :
    (cfg : Config) (task : Task) (d : Dispatcher) (failures : Counts)
    → Shape cfg task d (schedule_retry cfg task (record d { failures = failures }))
unfolding schedule_retry
schedule_retry-Shape cfg task d failures =
    elim (Option-cases (get_delay? cfg.retry_delays task.attempt)) [
      | inl over ↦ record { queue = ground arith; waiting = inl (ground arith) }
      | inr (delay, e) ↦ record { queue = ground arith; waiting = inr (delay, e, ground arith) }
    ]

pub process_task-Shape :
    (cfg : Config) (task : Task) (response : Option ℕ) (d : Dispatcher)
    → Shape cfg task d (process_task cfg task response d)
unfolding process_task
process_task-Shape cfg task response d =
    let (result, failed) = execute_delivery response in
    let count = get d.failures task.subscription.id + 1 in
    let same : (f : Counts) (u : List WebhookSubscription)
        → Shape cfg task d (record d { failures = f; updates = u }) =
      λ f u. record { queue = refl; waiting = inl refl } in
    let counted = put d.failures task.subscription.id count in
    let retired = record task.subscription { is_active = false } ∷ d.updates in
    if-Shape cfg task d (not failed && result.success)
      (same (put d.failures task.subscription.id 0) d.updates)
      (if-Shape cfg task d (result.status_code == 410) (same d.failures retired) (
        if-Shape cfg task d (leb cfg.max_consecutive_failures count) (same counted retired)
          (schedule_retry-Shape cfg task d counted)))

module _ (cfg : Config) where
  abbrev most : ℕ
  most = length cfg.retry_delays

  pub record IsBounded (d : Dispatcher) : Type 0 where
    pub room : length d.queue ≤ cfg.queue_capacity
    pub queued : All (λ task. task.attempt ≤ most) d.queue
    pub waits : All (λ w. w.1.attempt ≤ most) d.waiting

  send_or_drop-room :
      (task : Task) (queue : List Task)
      → length queue ≤ cfg.queue_capacity
      → length (send_or_drop cfg.queue_capacity task queue) ≤ cfg.queue_capacity
  unfolding send_or_drop
  send_or_drop-room task queue h = ground (arith, length-append queue (task ∷ []))

  send_or_drop-All :
      (P : Task → Type 0) (task : Task) (queue : List Task)
      → P task
      → All P queue
      → All P (send_or_drop cfg.queue_capacity task queue)
  unfolding send_or_drop
  send_or_drop-All P task queue p h = elim (Bool-cases (ltb (length queue) cfg.queue_capacity)) [
    | inl room ↦ rw room (All-append P queue (task ∷ []) h (p, tt))
    | inr full ↦ rw full h
  ]

  enqueue_all-IsBounded :
      (body : Text) (subs : List WebhookSubscription) (queue : List Task)
      → length queue ≤ cfg.queue_capacity
      → All (λ task. task.attempt ≤ most) queue
      → let after = enqueue_all cfg.queue_capacity body subs queue in
        (length after ≤ cfg.queue_capacity) × All (λ task. task.attempt ≤ most) after
  unfolding enqueue_all
  enqueue_all-IsBounded body [] queue h k = (h, k)
  enqueue_all-IsBounded body (sub ∷ subs) queue h k =
      enqueue_all-IsBounded body subs _ (send_or_drop-room _ queue h)
        (send_or_drop-All _ _ queue (omega arith) k)

  pub get_delay-lt :
      (xs : List ℕ) (n : ℕ) {delay : ℕ} → get_delay? xs n ≡ some delay → n < length xs
  get_delay-lt [] n e = cc
  get_delay-lt (x ∷ xs) zero e = omega arith
  get_delay-lt (x ∷ xs) (suc n) e = omega (arith, get_delay-lt xs n e)

  pub dispatch-IsBounded :
      (listed : Result (List WebhookSubscription)) (marshalled : Option Text) (d : Dispatcher)
      → IsBounded d
      → IsBounded (dispatch cfg listed marshalled d).1
  unfolding dispatch
  dispatch-IsBounded (err e) marshalled d h = h
  dispatch-IsBounded (ok []) marshalled d h = h
  dispatch-IsBounded (ok (sub ∷ subs)) none d h = h
  dispatch-IsBounded (ok (sub ∷ subs)) (some body) d h =
      let (room, queued) = enqueue_all-IsBounded body (sub ∷ subs) d.queue h.room h.queued in
      record { room = room; queued = queued; waits = h.waits }

  process_task-IsBounded :
      (task : Task) (response : Option ℕ) (d : Dispatcher)
      → IsBounded d
      → IsBounded (process_task cfg task response d)
  process_task-IsBounded task response d h =
      let shape = process_task-Shape cfg task response d in
      let same_queue = shape.queue in
      elim shape.waiting [
        | inl same ↦ record {
          room = rw same_queue h.room;
          queued = rw same_queue h.queued;
          waits = rw same h.waits;
        }
        | inr (delay, e, more) ↦ record {
          room = rw same_queue h.room;
          queued = rw same_queue h.queued;
          waits = rw more (
              All-append _ d.waiting _ h.waits
                (omega (arith, get_delay-lt cfg.retry_delays task.attempt e), tt));
        }
      ]

  pub All-remove :
      (P : ℕ × Task → Type 0) (xs ys : List (ℕ × Task)) {x : ℕ × Task}
      → All P (xs ++ x ∷ ys)
      → All P (xs ++ ys) × P x
  All-remove P [] ys (p, h) = (h, p)
  All-remove P (x ∷ xs) ys (p, h) = let (rest, q) = All-remove P xs ys h in ((p, rest), q)

  pub Step-IsBounded : {d e : Dispatcher} → Step cfg d e → IsBounded d → IsBounded e
  unfolding start stop
  Step-IsBounded (starts d) h = record { room = h.room; queued = h.queued; waits = h.waits }
  Step-IsBounded (stops d) h = record { room = h.room; queued = h.queued; waits = h.waits }
  Step-IsBounded (dispatches d listed marshalled) h = dispatch-IsBounded listed marshalled d h
  Step-IsBounded (delivers d task rest response w e) h =
      process_task-IsBounded task response _ (record {
        room = let r = rw e at h.room in omega arith;
        queued = (rw e at h.queued).1;
        waits = h.waits;
      })
  Step-IsBounded (retries d before after delay task e room) h =
      let (waits, fresh) = All-remove _ before after (rw e at h.waits) in
      record {
        room = omega (arith, length-append d.queue (task ∷ []));
        queued = All-append _ d.queue _ h.queued (fresh, tt);
        waits = waits;
      }
  Step-IsBounded (gives_up d before after delay task s e) h = record {
    room = h.room;
    queued = h.queued;
    waits = (All-remove _ before after (rw e at h.waits)).0;
  }
  Step-IsBounded (quits d s) h = record { room = h.room; queued = h.queued; waits = h.waits }

  -- Whatever the order of calls, deliveries, retries and shutdown, from the new dispatcher on the
  -- queue never holds more than its capacity, and no queued or waiting task has an attempt number
  -- above the number of retry delays.
  pub Reach-IsBounded : {d : Dispatcher} → Reach cfg initial d → IsBounded d
  Reach-IsBounded here = record { room = omega arith; queued = tt; waits = tt }
  Reach-IsBounded (next r s) = Step-IsBounded s (Reach-IsBounded r)
