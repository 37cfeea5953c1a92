-- ===== src/Webhook/Dispatcher/Steps.antt =====
-- What may happen next to a dispatcher: its goroutines and its callers, in any order.
use job_board.Prelude.{ℕ, ◌<◌, ◌≡◌, true, false, List, [], ◌∷◌, ◌++◌, Option, length}
use job_board.Text.{Text}
use job_board.Domain.Types.{WebhookSubscription, Result}
use job_board.Webhook.Dispatcher.{Config, Task, Dispatcher, start, stop, dispatch, process_task}

-- One step. The worker takes the oldest task and its delivery gets some response; a retry comes
-- back when its delay is over and the queue has room; once the dispatcher is stopped, the worker
-- and the waiting goroutines may end. Where a select has several ready cases, any is taken.
pub data Step (cfg : Config) : Dispatcher → Dispatcher → Type 0 where
  starts : (d : Dispatcher) → Step cfg d (start d)
  stops : (d : Dispatcher) → Step cfg d (stop d)
  dispatches :
      (d : Dispatcher) (listed : Result (List WebhookSubscription)) (marshalled : Option Text)
      → Step cfg d (dispatch cfg listed marshalled d).1
  delivers :
      (d : Dispatcher) (task : Task) (rest : List Task) (response : Option ℕ)
      → d.working ≡ true
      → d.queue ≡ task ∷ rest
      → Step cfg d (process_task cfg task response (record d { queue = rest }))
  retries :
      (d : Dispatcher) (before after : List (ℕ × Task)) (delay : ℕ) (task : Task)
      → d.waiting ≡ before ++ (delay, task) ∷ after
      → length d.queue < cfg.queue_capacity
      → Step cfg d (record d { waiting = before ++ after; queue = d.queue ++ task ∷ [] })
  gives_up :
      (d : Dispatcher) (before after : List (ℕ × Task)) (delay : ℕ) (task : Task)
      → d.stopped ≡ true
      → d.waiting ≡ before ++ (delay, task) ∷ after
      → Step cfg d (record d { waiting = before ++ after })
  quits : (d : Dispatcher) → d.stopped ≡ true → Step cfg d (record d { working = false })

pub data Reach (cfg : Config) (d : Dispatcher) : Dispatcher → Type 0 where
  here : Reach cfg d d
  next : {e f : Dispatcher} → Reach cfg d e → Step cfg e f → Reach cfg d f
