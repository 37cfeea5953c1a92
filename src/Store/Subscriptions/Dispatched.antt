-- ===== src/Store/Subscriptions/Dispatched.antt =====
-- Who is told of an event: the dispatcher over the repository.
use job_board.Prelude.{
  All-of_any-not, any-not-filter, ℕ, ◌≡◌, refl, sym, ap, ◌∙◌, Bool, true, not, ◌&&◌, List, [], ◌∷◌,
  ◌++◌, Option, none, some, any, filter, All, All-append, Option-cases, inl, inr, Bool-cases, arith,
  ltb, length, append_assoc, append-nil,
}
use job_board.Text.{Text}
use job_board.Text.Equality.{text_eq_refl}
use job_board.Domain.Types.{WebhookSubscription, Result, ok, err}
use job_board.Domain.Values.{Value}
use job_board.Webhook.Dispatcher.{Config, Task, Dispatcher, send_or_drop, enqueue_all, dispatch}
use job_board.Store.TextArray
use job_board.Store.TextArray.{Scanned, unsupported_type, invalid_format}
use job_board.Store.Integrity.Tables.{All-weaken}
use job_board.Store.Database.{Database, Postgres, rows, without_uuid}
use job_board.Store.Subscriptions.{
  is_sub, wants, scanned, scan_subscription, cons_scanned, scan_all, subs_listed,
  list_active_by_event,
}

-- A row of the table that is active and lists the event, or all events.
abbrev pub subscribed : Text → Text → WebhookSubscription → Bool
subscribed event id row = is_sub id row && wants event row

any-here : {A : Type 0} (p q : A → Bool) (x : A) → p x ≡ true → q x ≡ true → (p x && q x) ≡ true
any-here p q x e f = rw (e, f) refl

any-of_filter :
    {A : Type 0} (p q : A → Bool) (xs : List A) → any q (filter p xs) ≡ true → any q xs ≡ true
any-of_filter p q [] e = cc
any-of_filter p q (x ∷ xs) e = ground (arith, any-of_filter p q xs)

-- The tasks that are added for some subscriptions.
module _ (P : WebhookSubscription → Type 0) where
  -- The queue grows at its end, by tasks for the subscriptions with the property.
  abbrev pub Grown : List Task → List Task → Type 0
  Grown queue after =
      (new : List Task) × (after ≡ queue ++ new) × All (λ task. P task.subscription) new

  send_or_drop-Grown :
      (capacity : ℕ) (task : Task) (queue : List Task)
      → P task.subscription
      → Grown queue (send_or_drop capacity task queue)
  unfolding send_or_drop
  send_or_drop-Grown capacity task queue h = elim (Bool-cases (ltb (length queue) capacity)) [
    | inl room ↦ rw room (task ∷ [], refl, (h, tt))
    | inr full ↦ rw full ([], sym (append-nil queue), tt)
  ]

  Grown-trans : (a b c : List Task) → Grown a b → Grown b c → Grown a c
  Grown-trans a b c (new, e, h) (more, f, k) = (
    new ++ more,
    f ∙ (ap (λ q. q ++ more) e ∙ append_assoc a new more),
    All-append (λ task. P task.subscription) new more h k,
  )

  enqueue_all-Grown :
      (capacity : ℕ) (raw_body : Text) (subs : List WebhookSubscription) (queue : List Task)
      → All P subs
      → Grown queue (enqueue_all capacity raw_body subs queue)
  unfolding enqueue_all
  enqueue_all-Grown capacity raw_body [] queue h = ([], sym (append-nil queue), tt)
  enqueue_all-Grown capacity raw_body (sub ∷ subs) queue (p, h) =
      let task : Task = record { subscription = sub; raw_body = raw_body; attempt = 0 } in
      Grown-trans queue (send_or_drop capacity task queue) _
        (send_or_drop-Grown capacity task queue p)
        (enqueue_all-Grown capacity raw_body subs (send_or_drop capacity task queue) h)

  dispatch-Grown :
      (cfg : Config) (listed : Result (List WebhookSubscription)) (marshalled : Option Text)
      (d : Dispatcher)
      → ((subs : List WebhookSubscription) → listed ≡ ok subs → All P subs)
      → Grown d.queue (dispatch cfg listed marshalled d).1.queue
  unfolding dispatch
  dispatch-Grown cfg (err e) marshalled d h = ([], sym (append-nil d.queue), tt)
  dispatch-Grown cfg (ok []) marshalled d h = ([], sym (append-nil d.queue), tt)
  dispatch-Grown cfg (ok (sub ∷ subs)) none d h = ([], sym (append-nil d.queue), tt)
  dispatch-Grown cfg (ok (sub ∷ subs)) (some raw_body) d h =
      enqueue_all-Grown cfg.queue_capacity raw_body (sub ∷ subs) d.queue (h (sub ∷ subs) refl)

module _ (sprint : Value → Text) (pg : Postgres) (event : Text) where
  scanned-id :
      (row sub : WebhookSubscription) (s : Scanned)
      → scanned sprint pg row s ≡ ok sub
      → sub.id ≡ row.id
  scanned-id row sub (TextArray.ok events) e =
      let same : record row { events = events } ≡ sub = cc in ap (λ r. r.id) (sym same)
  scanned-id row sub unsupported_type e = cc
  scanned-id row sub (invalid_format s) e = cc

  scan_subscription-id :
      (row sub : WebhookSubscription) → scan_subscription sprint pg row ≡ ok sub → sub.id ≡ row.id
  unfolding scan_subscription
  scan_subscription-id row sub e = scanned-id row sub _ e

  -- Each of the subscriptions that are read is one of the rows.
  cons_scanned-All :
      (P : WebhookSubscription → Type 0) (one : Result WebhookSubscription)
      (rest : Result (List WebhookSubscription)) (subs : List WebhookSubscription)
      → cons_scanned sprint pg one rest ≡ ok subs
      → ((sub : WebhookSubscription) → one ≡ ok sub → P sub)
      → ((more : List WebhookSubscription) → rest ≡ ok more → All P more)
      → All P subs
  cons_scanned-All P (err x) rest subs e f g = cc
  cons_scanned-All P (ok sub) (err x) subs e f g = cc
  cons_scanned-All P (ok sub) (ok more) subs e f g =
      let same : sub ∷ more ≡ subs = cc in rw (← same) (f sub refl, g more refl)

  scan_all-All :
      (q : Text → WebhookSubscription → Bool) (xs subs : List WebhookSubscription)
      → scan_all sprint pg xs ≡ ok subs
      → All (λ row. q row.id row ≡ true) xs
      → All (λ sub. any (q sub.id) xs ≡ true) subs
  unfolding scan_all
  scan_all-All q [] subs e h = let none : [] ≡ subs = cc in rw (← none) tt
  scan_all-All q (row ∷ xs) subs e (p, h) =
      cons_scanned-All (λ sub. any (q sub.id) (row ∷ xs) ≡ true) (scan_subscription sprint pg row)
        (scan_all sprint pg xs) subs e
        (λ sub found. rw (scan_subscription-id row sub found, p) refl)
        (λ more found.
          All-weaken (λ sub. any (q sub.id) xs ≡ true) (λ sub. any (q sub.id) (row ∷ xs) ≡ true)
            more (λ sub there. ground arith) (scan_all-All q xs more found h))

  subs_listed-ok :
      (what : Text) (xs subs : List WebhookSubscription)
      → subs_listed sprint pg what (without_uuid pg (rows xs)) ≡ ok subs
      → scan_all sprint pg xs ≡ ok subs
  unfolding scan_all
  subs_listed-ok what xs subs e = elim (Option-cases (pg.fault)) [
    | inl up ↦ rw up at e
    | inr (message, down) ↦ cc (rw down at e)
  ]

  list_active_by_event-All :
      (db : Database) (subs : List WebhookSubscription)
      → ((q : WebhookSubscription → Bool) (xs : List WebhookSubscription)
          → any q (pg.order_subscriptions xs) ≡ any q xs)
      → list_active_by_event sprint pg event db ≡ ok subs
      → All (λ sub. any (subscribed event sub.id) db.subscriptions ≡ true) subs
  unfolding list_active_by_event
  list_active_by_event-All db subs orders e =
      let active = filter (wants event) db.subscriptions in
      let found = pg.order_subscriptions active in
      let all_want = All-of_any-not (wants event) found (
        orders (λ row. not (wants event row)) active
        ∙ any-not-filter (wants event) db.subscriptions) in
      All-weaken (λ sub. any (subscribed event sub.id) found ≡ true)
        (λ sub. any (subscribed event sub.id) db.subscriptions ≡ true) subs
        (λ sub there.
          any-of_filter (wants event) (subscribed event sub.id) db.subscriptions
            (sym (orders (subscribed event sub.id) active) ∙ there))
        (scan_all-All (subscribed event) found subs (subs_listed-ok _ found subs e) (
          All-weaken (λ row. wants event row ≡ true) (λ row. subscribed event row.id row ≡ true)
            found
            (λ row want. any-here (is_sub row.id) (wants event) row (text_eq_refl row.id) want)
            all_want))

-- A Dispatch adds tasks at the end of the queue, and nothing else to it; each is for the id of a row
-- of the table that is active and lists the event or all events, if the database gives the rows
-- that it selects, and no others, in some order.
pub dispatch-Subscribed :
    (sprint : Value → Text) (pg : Postgres) (event : Text) (cfg : Config) (db : Database)
    (marshalled : Option Text) (d : Dispatcher)
    → ((q : WebhookSubscription → Bool) (xs : List WebhookSubscription)
        → any q (pg.order_subscriptions xs) ≡ any q xs)
    → (new : List Task) × ((dispatch cfg
          (list_active_by_event sprint pg event db)
          marshalled
          d).1.queue
        ≡ d.queue ++ new)
      × All (λ task. any (subscribed event task.subscription.id) db.subscriptions ≡ true) new
dispatch-Subscribed sprint pg event cfg db marshalled d orders =
    dispatch-Grown (λ sub. any (subscribed event sub.id) db.subscriptions ≡ true) cfg
      (list_active_by_event sprint pg event db) marshalled d
      (λ subs e. list_active_by_event-All sprint pg event db subs orders e)
