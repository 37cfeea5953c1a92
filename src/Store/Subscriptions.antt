-- ===== src/Store/Subscriptions.antt =====
-- internal/store/postgres/webhook_subscription_repo.go
pub mod Dispatched
use job_board.Prelude.{
  Bool, not, ◌&&◌, ◌||◌, List, [], ◌∷◌, Option, none, some, if◌then◌else◌, any, filter, find, map,
}
use job_board.Text.{Text, txt, text_eq}
use job_board.Domain.Types.{
  WebhookSubscription, Time, event_all, not_found, other, wrapped, Result, ok, err,
}
use job_board.Domain.Values.{Value}
use job_board.Store.TextArray
use job_board.Store.TextArray.{Scanned, unsupported_type, invalid_format, value, scan}
use job_board.Store.Database.{
  Database, Postgres, unique_violation, failed, plain_error, Answer, rows, error, with_uuid,
  without_uuid, with_new_uuid, accepted, affected, returning,
}

abbrev pub is_sub : Text → WebhookSubscription → Bool
is_sub id sub = text_eq sub.id id

-- The WHERE clause of `ListActiveByEvent`.
abbrev pub wants : Text → WebhookSubscription → Bool
wants event sub =
    sub.is_active && (any (text_eq event) sub.events || any (text_eq event_all) sub.events)

module _ (sprint : Value → Text) (pg : Postgres) where
  -- A literal for an array that PostgreSQL reads, or the error that it answers with.
  abbrev pub with_array {ℓ} : {A : Type ℓ} → List Text → (List Text → Answer A) → Answer A
  with_array events run = elim (pg.read_array (value (some events))) [
    | none ↦ error (failed (txt "malformed array literal"))
    | some kept ↦ run kept
  ]

  unfoldable pub insert_sub :
      Time
      → Text
      → WebhookSubscription
      → List Text
      → Database
      → Answer (Option (WebhookSubscription × Database))
  insert_sub now uuid sub kept db =
      let new = record sub { id = uuid; created_at = now; updated_at = now } in
      accepted (pg.refuses_subscription (record new { events = kept })) (
        if any (is_sub uuid) db.subscriptions
        then error unique_violation
        else rows (
            some
              (new, record db { subscriptions = record new { events = kept } ∷ db.subscriptions })))

  -- `Create`, at the time NOW() and with the random uuid `fresh`.
  unfoldable pub create_row :
      Time → Text → WebhookSubscription → Database → Result WebhookSubscription × Database
  unfolding insert_sub
  create_row now fresh sub db =
      returning (txt "failed to create webhook subscription")
        (with_new_uuid pg fresh sub.id
          (λ uuid. with_array sub.events (λ kept. insert_sub now uuid sub kept db)))
        db

  abbrev pub scanned : WebhookSubscription → Scanned → Result WebhookSubscription
  scanned row (TextArray.ok events) = ok (record row { events = events })
  scanned row unsupported_type = err (other (txt "unsupported type for TextArray scan"))
  scanned row (invalid_format s) = err (other (txt "invalid array format"))

  -- `scanSubscription` of a row.
  unfoldable pub scan_subscription : WebhookSubscription → Result WebhookSubscription
  scan_subscription row = scanned row (scan sprint (TextArray.text (pg.write_array row.events)))

  abbrev pub cons_scanned :
      Result WebhookSubscription
      → Result (List WebhookSubscription)
      → Result (List WebhookSubscription)
  cons_scanned (err e) rest = err (wrapped (txt "failed to scan webhook subscription") e)
  cons_scanned (ok sub) (ok subs) = ok (sub ∷ subs)
  cons_scanned (ok sub) (err e) = err e

  -- The loop over the rows of a result.
  unfoldable pub scan_all : List WebhookSubscription → Result (List WebhookSubscription)
  unfolding scan_subscription
  scan_all [] = ok []
  scan_all (row ∷ xs) = cons_scanned (scan_subscription row) (scan_all xs)

  abbrev one_scanned : Result WebhookSubscription → Result (Option WebhookSubscription)
  one_scanned (ok sub) = ok (some sub)
  one_scanned (err e) = err (wrapped (txt "failed to get webhook subscription by id") e)

  abbrev got : Answer (Option WebhookSubscription) → Result (Option WebhookSubscription)
  got (rows none) = err not_found
  got (rows (some row)) = one_scanned (scan_subscription row)
  got (error e) = err (plain_error (txt "failed to get webhook subscription by id") e)

  -- `GetByID`
  unfoldable pub get_by_id : Text → Database → Result (Option WebhookSubscription)
  unfolding scan_subscription
  get_by_id id db = got (with_uuid pg id (λ uuid. rows (find (is_sub uuid) db.subscriptions)))

  abbrev pub subs_listed :
      Text → Answer (List WebhookSubscription) → Result (List WebhookSubscription)
  subs_listed what (rows xs) = scan_all xs
  subs_listed what (error e) = err (plain_error what e)

  -- `List`
  unfoldable pub list_rows : Database → Result (List WebhookSubscription)
  unfolding scan_all
  list_rows db =
      subs_listed (txt "failed to list webhook subscriptions")
        (without_uuid pg (rows (pg.order_subscriptions db.subscriptions)))

  -- `ListActiveByEvent`
  unfoldable pub list_active_by_event : Text → Database → Result (List WebhookSubscription)
  unfolding scan_all
  list_active_by_event event db =
      subs_listed (txt "failed to list active webhook subscriptions by event")
        (without_uuid pg (rows (pg.order_subscriptions (filter (wants event) db.subscriptions))))

  abbrev pub update_found :
      Time
      → Text
      → WebhookSubscription
      → List Text
      → Database
      → Option WebhookSubscription
      → Answer (Option (WebhookSubscription × Database))
  update_found now uuid sub kept db none = rows none
  update_found now uuid sub kept db (some old) =
      let new = record sub {
        id = old.id;
        events = kept;
        created_at = old.created_at;
        updated_at = now;
      } in
      accepted (pg.refuses_subscription new) (
        rows (
          some (
            record sub { updated_at = now },
            record db {
              subscriptions = map (λ row. if is_sub uuid row then new else row) db.subscriptions;
            },
          )))

  -- `Update`
  unfoldable pub update_row :
      Time → WebhookSubscription → Database → Result WebhookSubscription × Database
  update_row now sub db =
      returning (txt "failed to update webhook subscription")
        (with_uuid pg sub.id (λ uuid.
          with_array sub.events
            (λ kept. update_found now uuid sub kept db (find (is_sub uuid) db.subscriptions))))
        db

  -- `Delete`
  unfoldable pub delete_row : Text → Database → Result (Unit {0}) × Database
  delete_row id db =
      affected (txt "failed to delete webhook subscription")
        (with_uuid pg id (λ uuid. rows (
          any (is_sub uuid) db.subscriptions,
          record db { subscriptions = filter (λ sub. not (is_sub uuid sub)) db.subscriptions },
        )))
        db
