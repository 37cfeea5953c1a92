-- ===== src/Store/Integrity/SubscriptionRows.antt =====
-- The statements on the subscriptions keep the database consistent.
use job_board.Prelude.{
  ◌≡◌, refl, Bool, false, not, List, ◌∷◌, Option, none, some, if◌then◌else◌, any, filter, find, map,
  arith,
}
use job_board.Domain.Types.{WebhookSubscription, Time}
use job_board.Domain.Values.{Value}
use job_board.Text.{Text, txt}
use job_board.Text.Equality.{text_eq_sound}
use job_board.Store.Database.{Database, Postgres, Answer, error, failed}
use job_board.Store.TextArray
use job_board.Store.Subscriptions
use job_board.Store.Subscriptions.{is_sub, with_array, insert_sub, update_found}
use job_board.Store.Integrity.Tables.{Unique, Unique-filter, Unique-map, find-some}
use job_board.Store.Integrity.Answers.{
  Answered, AtRow, AtState, Answered-if, Answered-accepted, Answered-with_uuid,
  Answered-with_new_uuid, AtState-returning, AtState-affected,
}
use job_board.Store.Integrity.Rules.{IsConsistent}

subscriptions-IsConsistent :
    (db : Database) (subs : List WebhookSubscription)
    → IsConsistent db
    → Unique (λ sub. sub.id) subs
    → IsConsistent (record db { subscriptions = subs })
subscriptions-IsConsistent db subs h ids = record {
  jobs_fit = h.jobs_fit;
  apps_fit = h.apps_fit;
  notes_fit = h.notes_fit;
  key_ids = h.key_ids;
  key_hashes = h.key_hashes;
  subscription_ids = ids;
}

module _ (pg : Postgres) (db : Database) (h : IsConsistent db) where
  module _ (sprint : Value → Text) where
    Answered-with_array :
        {A : Type 0} (Q : A → Type 0) (events : List Text) (run : List Text → Answer A)
        → ((kept : List Text) → Answered Q (run kept))
        → Answered Q (with_array sprint pg events run)
    Answered-with_array Q events run g =
        elim (pg.read_array (TextArray.value (some events)))
          as (λ f. Answered Q (elim f [
            | none ↦ error (failed (txt "malformed array literal"))
            | some kept ↦ run kept
          ])) [ none ↦ tt | some kept ↦ g kept ]

    insert_sub-IsConsistent :
        (now : Time) (uuid : Text) (sub : WebhookSubscription) (kept : List Text)
        → Answered (AtRow IsConsistent) (insert_sub sprint pg now uuid sub kept db)
    unfolding insert_sub
    insert_sub-IsConsistent now uuid sub kept =
        let new = record sub { id = uuid; events = kept; created_at = now; updated_at = now } in
        Answered-accepted (AtRow IsConsistent) (pg.refuses_subscription new) _ (
          Answered-if (AtRow IsConsistent) _ _ _ (λ e. tt)
            (λ (fresh : any (is_sub uuid) db.subscriptions ≡ false).
              subscriptions-IsConsistent db (new ∷ db.subscriptions) h (fresh, h.subscription_ids)))

    pub create_subscription-IsConsistent :
        (now : Time) (fresh : Text) (sub : WebhookSubscription)
        → AtState IsConsistent (Subscriptions.create_row sprint pg now fresh sub db)
    unfolding Subscriptions.create_row
    create_subscription-IsConsistent now fresh sub = AtState-returning IsConsistent _ _ db h (
        Answered-with_new_uuid (AtRow IsConsistent) pg fresh sub.id _ (λ uuid.
          Answered-with_array (AtRow IsConsistent) sub.events _
            (λ kept. insert_sub-IsConsistent now uuid sub kept)))

    update_found-IsConsistent :
        (now : Time) (uuid : Text) (sub : WebhookSubscription) (kept : List Text)
        (old : Option WebhookSubscription)
        → find (is_sub uuid) db.subscriptions ≡ old
        → Answered (AtRow IsConsistent) (update_found sprint pg now uuid sub kept db old)
    update_found-IsConsistent now uuid sub kept none found = tt
    update_found-IsConsistent now uuid sub kept (some old) found =
        let new = record sub {
          id = old.id;
          events = kept;
          created_at = old.created_at;
          updated_at = now;
        } in
        let same = text_eq_sound old.id uuid (find-some (is_sub uuid) db.subscriptions found) in
        let swap : WebhookSubscription → WebhookSubscription =
          λ row. if is_sub uuid row then new else row in
        Answered-accepted (AtRow IsConsistent) (pg.refuses_subscription new) _ (
          subscriptions-IsConsistent db (map swap db.subscriptions) h (
            Unique-map (λ sub. sub.id) swap db.subscriptions
              (λ row. ground (arith, same, text_eq_sound row.id uuid)) h.subscription_ids))

    pub update_subscription-IsConsistent :
        (now : Time) (sub : WebhookSubscription)
        → AtState IsConsistent (Subscriptions.update_row sprint pg now sub db)
    unfolding Subscriptions.update_row
    update_subscription-IsConsistent now sub = AtState-returning IsConsistent _ _ db h (
        Answered-with_uuid (AtRow IsConsistent) pg sub.id _ (λ uuid.
          Answered-with_array (AtRow IsConsistent) sub.events _ (λ kept.
            update_found-IsConsistent now uuid sub kept (find (is_sub uuid) db.subscriptions)
              refl)))

    pub delete_subscription-IsConsistent :
        (id : Text) → AtState IsConsistent (Subscriptions.delete_row sprint pg id db)
    unfolding Subscriptions.delete_row
    delete_subscription-IsConsistent id = AtState-affected IsConsistent _ _ db h (
        Answered-with_uuid (AtState {A = Bool} IsConsistent) pg id _ (λ uuid.
          let keep : WebhookSubscription → Bool = λ sub. not (is_sub uuid sub) in
          subscriptions-IsConsistent db (filter keep db.subscriptions) h
            (Unique-filter (λ sub. sub.id) keep db.subscriptions h.subscription_ids)))
