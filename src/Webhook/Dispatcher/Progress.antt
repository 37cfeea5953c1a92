-- ===== src/Webhook/Dispatcher/Progress.antt =====
-- Deliveries end: without new events, every delivery uses up one of the attempts that are left.
use job_board.Prelude.{
  ℕ, ◌+◌, ◌-◌, ◌≤◌, ◌≡◌, refl, ap, List, [], ◌∷◌, ◌++◌, Option, arith, length, inl, inr,
}
use job_board.Webhook.Dispatcher.{Config, Task, Dispatcher, start, stop, process_task}
use job_board.Webhook.Dispatcher.Steps.{
  Step, starts, stops, dispatches, delivers, retries, gives_up, quits, Reach, here, next,
}
use job_board.Webhook.Dispatcher.Bounds.{
  IsBounded, Step-IsBounded, process_task-Shape, get_delay-lt,
}

module _ (cfg : Config) where
  -- The deliveries that a task may still have, and those of all tasks of a dispatcher.
  abbrev left : Task → ℕ
  left task = length cfg.retry_delays + 1 - task.attempt

  queue_left : List Task → ℕ
  queue_left [] = 0
  queue_left (task ∷ tasks) = left task + queue_left tasks

  waiting_left : List (ℕ × Task) → ℕ
  waiting_left [] = 0
  waiting_left (w ∷ ws) = left w.1 + waiting_left ws

  unfoldable pub potential : Dispatcher → ℕ
  unfolding queue_left waiting_left
  potential d = queue_left d.queue + waiting_left d.waiting

  queue_left-append : (xs ys : List Task) → queue_left (xs ++ ys) ≡ queue_left xs + queue_left ys
  unfolding queue_left
  queue_left-append [] ys = omega arith
  queue_left-append (x ∷ xs) ys = omega (arith, queue_left-append xs ys)

  waiting_left-append :
      (xs ys : List (ℕ × Task)) → waiting_left (xs ++ ys) ≡ waiting_left xs + waiting_left ys
  unfolding waiting_left
  waiting_left-append [] ys = omega arith
  waiting_left-append (x ∷ xs) ys = omega (arith, waiting_left-append xs ys)

  waiting_left-remove :
      (xs ys : List (ℕ × Task)) (w : ℕ × Task)
      → waiting_left (xs ++ w ∷ ys) ≡ left w.1 + waiting_left (xs ++ ys)
  unfolding waiting_left
  waiting_left-remove [] ys w = refl
  waiting_left-remove (x ∷ xs) ys w = omega (arith, waiting_left-remove xs ys w)

  -- A delivery costs one of the attempts left.
  process_task-potential :
      (task : Task) (rest : List Task) (response : Option ℕ) (d : Dispatcher)
      → task.attempt ≤ length cfg.retry_delays
      → potential (process_task cfg task response (record d { queue = rest })) + 1
        ≤ left task + (queue_left rest + waiting_left d.waiting)
  unfolding potential
  process_task-potential task rest response d low =
      let shape = process_task-Shape cfg task response (record d { queue = rest }) in
      let same = ap queue_left shape.queue in
      elim shape.waiting [
        | inl kept ↦ let kept' = ap waiting_left kept in omega arith
        | inr (delay, e, more) ↦
            let more' = ap waiting_left more in
            let again : Task = record task { attempt = task.attempt + 1 } in
            omega (
              arith,
              get_delay-lt cfg cfg.retry_delays task.attempt e,
              waiting_left-append d.waiting ((delay, again) ∷ []),
            )
      ]

-- Whether a step is a delivery, as 1 or 0, and that it is no Dispatch.
module _ {cfg : Config} where
  abbrev pub weight : {d e : Dispatcher} → Step cfg d e → ℕ
  weight (delivers _ _ _ _ _ _) = 1
  weight _ = 0

  abbrev pub IsQuiet : {d e : Dispatcher} → Step cfg d e → Type 0
  IsQuiet (dispatches _ _ _) = ⊥
  IsQuiet _ = Unit

  Step-potential :
      {d e : Dispatcher} (s : Step cfg d e)
      → IsQuiet s
      → IsBounded cfg d
      → weight s + potential cfg e ≤ potential cfg d
  unfolding potential start stop
  Step-potential (starts d) q h = omega arith
  Step-potential (stops d) q h = omega arith
  Step-potential (dispatches d listed marshalled) q h = absurd q
  Step-potential (delivers d task rest response w e) q h =
      let cost = process_task-potential cfg task rest response d (rw e at h.queued).0 in
      rw e (omega (arith, cost))
  Step-potential (retries d before after delay task e room) q h = rw e (
      omega (
        arith,
        queue_left-append cfg d.queue (task ∷ []),
        waiting_left-remove cfg before after (delay, task),
      ))
  Step-potential (gives_up d before after delay task s e) q h =
      rw e (omega (arith, waiting_left-remove cfg before after (delay, task)))
  Step-potential (quits d s) q h = omega arith

  -- The deliveries in a sequence of steps, and that none of its steps is a Dispatch.
  abbrev pub deliveries : {d e : Dispatcher} → Reach cfg d e → ℕ
  deliveries here = 0
  deliveries (next r s) = deliveries r + weight s

  abbrev pub AllQuiet : {d e : Dispatcher} → Reach cfg d e → Type 0
  AllQuiet here = Unit
  AllQuiet (next r s) = AllQuiet r × IsQuiet s

  Reach-keeps : {d e : Dispatcher} → Reach cfg d e → IsBounded cfg d → IsBounded cfg e
  Reach-keeps here h = h
  Reach-keeps (next r s) h = Step-IsBounded cfg s (Reach-keeps r h)

  -- From a bounded dispatcher, and without a Dispatch, the deliveries made and those that are left
  -- are together at most the deliveries that were left; every task counts for at most one delivery
  -- more than there are retry delays.
  pub deliveries_bounded :
      {d e : Dispatcher} (r : Reach cfg d e)
      → AllQuiet r
      → IsBounded cfg d
      → deliveries r + potential cfg e ≤ potential cfg d
  deliveries_bounded here q h = omega arith
  deliveries_bounded (next r s) q h =
      omega (arith, deliveries_bounded r q.0 h, Step-potential s q.1 (Reach-keeps r h))
