-- ===== src/Tests/Webhook.antt =====
-- The dispatcher at a concrete configuration, and a literal of a column of texts.
use job_board.Prelude.{◌+◌, ◌≤◌, ◌≡◌, refl, true, [], ◌∷◌, some}
use job_board.Text.{txt}
use job_board.Domain.Types.{WebhookSubscription, ok}
use job_board.Store.TextArray.{ok, text, value, scan}
use job_board.Store.TextArray.RoundTrip.{written, scan-value}
use job_board.Webhook.Dispatcher.{Config, Task, Dispatcher, initial, start, dispatch, process_task}
use job_board.Webhook.Dispatcher.Steps.{starts, dispatches, delivers, Reach, here, next}
use job_board.Webhook.Dispatcher.Policy.{Outcome, process_task-Outcome}
use job_board.Webhook.Dispatcher.Bounds.{IsBounded, Reach-IsBounded}
use job_board.Webhook.Dispatcher.Progress.{potential, deliveries, deliveries_bounded}

abbrev cfg : Config
cfg = record { retry_delays = 30 ∷ []; queue_capacity = 2; max_consecutive_failures = 3 }

abbrev hook : WebhookSubscription
hook = record {
  id = txt "sub-1";
  target_url = txt "https://example.com/hook";
  secret_token = txt "s";
  events = txt "*" ∷ [];
  is_active = true;
  created_at = 0;
  updated_at = 0;
}

abbrev task : Task
task = record { subscription = hook; raw_body = txt "{}"; attempt = 0 }

abbrev queued : Dispatcher
queued = (dispatch cfg (ok (hook ∷ [])) (some (txt "{}")) (start initial)).1

-- One event for one subscription, whose delivery then gets 500.
abbrev delivered : Dispatcher
delivered = process_task cfg task (some 500) (record queued { queue = [] })

one_task : queued.queue ≡ task ∷ []
unfolding dispatch start
one_task = refl

working : queued.working ≡ true
unfolding dispatch start
working = refl

abbrev to_queued : Reach cfg initial queued
to_queued =
    next (next here (starts initial))
      (dispatches (start initial) (ok (hook ∷ [])) (some (txt "{}")))

abbrev delivery : Reach cfg queued delivered
delivery = next here (delivers queued task [] (some 500) working one_task)

Reach-IsBounded_example : IsBounded cfg queued
Reach-IsBounded_example = Reach-IsBounded cfg to_queued

queued-IsBounded : IsBounded cfg queued
queued-IsBounded = Reach-IsBounded cfg to_queued

deliveries_bounded_example : deliveries delivery + potential cfg delivered ≤ potential cfg queued
deliveries_bounded_example = deliveries_bounded delivery (tt, tt) queued-IsBounded

process_task-Outcome_example :
    Outcome cfg task initial (some 410) (process_task cfg task (some 410) initial)
process_task-Outcome_example = process_task-Outcome cfg task (some 410) initial

scan-value_example :
    scan (λ v. []) (text (value (some (txt "a\"b" ∷ txt "c,d" ∷ []))))
    ≡ ok (written (some (txt "a\"b" ∷ txt "c,d" ∷ [])))
scan-value_example = scan-value (λ v. []) (some (txt "a\"b" ∷ txt "c,d" ∷ []))
