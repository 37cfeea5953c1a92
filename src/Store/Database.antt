-- ===== src/Store/Database.antt =====
-- The tables of migrations/000001_init_schema.up.sql and what the statements of the repositories
-- do with them. A row is the entity that it stores; a JSON column holds the value that was encoded.
-- Each statement is one transaction.
use job_board.Prelude.{ℕ, Bool, true, false, List, Option, none, some, if◌then◌else◌}
use job_board.Prelude.Int.{ℤ, pos, negsuc}
use job_board.Text.{Text, txt, text_eq}
use job_board.Domain.Types.{
  Float64, Job, Application, ApplicationNote, ApiKey, WebhookSubscription, ApplicationStage,
  DomainError, conflict, not_found, other, wrapped, Result, ok, err,
}

-- The rows of each table, the latest first.
pub record Database : Type 0 where
  pub jobs : List Job
  pub applications : List Application
  pub notes : List ApplicationNote
  pub keys : List ApiKey
  pub subscriptions : List WebhookSubscription

-- What PostgreSQL and its driver do during a call, and the program does not say: the error of a lost
-- connection, the canonical form of a text read as a uuid (`none` where it is none), what the types
-- of the columns refuse, the value that a NUMERIC(12, 2) column keeps, `value ILIKE pattern`, and the
-- order in which the rows of a result come. An array is sent as a literal that is read, and comes
-- back as one that is written.
pub record Postgres : Type 0 where
  pub fault : Option Text
  pub read_uuid : Text → Option Text
  pub refuses_job : Job → Option Text
  pub refuses_application : Application → Option Text
  pub refuses_stage : ApplicationStage → Option Text → Option Text
  pub refuses_note : ApplicationNote → Option Text
  pub refuses_key : ApiKey → Option Text
  pub refuses_subscription : WebhookSubscription → Option Text
  pub read_array : Text → Option (List Text)
  pub write_array : List Text → Text
  pub numeric : Float64 → Float64
  pub ilike : Text → Text → Bool
  pub order_jobs : List Job → List Job
  pub order_applications : List Application → List Application
  pub order_notes : List ApplicationNote → List ApplicationNote
  pub order_keys : List ApiKey → List ApiKey
  pub order_subscriptions : List WebhookSubscription → List WebhookSubscription
  pub order_texts : List Text → List Text

-- The errors of a statement, by their codes 23505 and 23503, or any other by its message.
pub data DbError : Type 0 where
  unique_violation foreign_key_violation : DbError
  failed : Text → DbError

abbrev error_text : DbError → Text
error_text unique_violation = txt "duplicate key value violates unique constraint"
error_text foreign_key_violation = txt "violates foreign key constraint"
error_text (failed message) = message

-- `fmt.Errorf("failed to …: %w", err)`
abbrev pub plain_error : Text → DbError → DomainError
plain_error what e = wrapped what (other (error_text e))

-- `mapDBError` of such an error.
unfoldable pub map_db_error : Text → DbError → DomainError
map_db_error what unique_violation = conflict
map_db_error what foreign_key_violation = not_found
map_db_error what (failed message) = plain_error what (failed message)

-- What a statement answers.
pub data Answer {ℓ} (A : Type ℓ) : Type ℓ where
  rows : A → Answer A
  error : DbError → Answer A

module _ (pg : Postgres) where
  -- A statement on a row with the id `id`, which has to be a uuid.
  abbrev pub with_uuid {ℓ} : {A : Type ℓ} → Text → (Text → Answer A) → Answer A
  with_uuid id run = elim (pg.fault) [
    | some message ↦ error (failed message)
    | none ↦ elim (pg.read_uuid id) [
      | none ↦ error (failed (txt "invalid input syntax for type uuid"))
      | some uuid ↦ run uuid
    ]
  ]

  -- A statement without an id.
  abbrev pub without_uuid {ℓ} : {A : Type ℓ} → Answer A → Answer A
  without_uuid answer = elim (pg.fault) [ some message ↦ error (failed message) | none ↦ answer ]

  -- `COALESCE(NULLIF($1, '')::uuid, gen_random_uuid())`, `fresh` being the random one.
  abbrev pub with_new_uuid {ℓ} : {A : Type ℓ} → Text → Text → (Text → Answer A) → Answer A
  with_new_uuid fresh id run =
      if text_eq id (txt "") then without_uuid (run fresh) else with_uuid id run

-- A row that the types of its columns do not refuse.
abbrev pub accepted {ℓ} : {A : Type ℓ} → Option Text → Answer A → Answer A
accepted none answer = answer
accepted (some message) answer = error (failed message)

-- `QueryRow` with the error of no rows, and the error of `Scan` that is not that one.
abbrev pub one_row {ℓ} : {A : Type ℓ} → Text → Answer (Option A) → Result (Option A)
one_row what (rows none) = err not_found
one_row what (rows (some row)) = ok (some row)
one_row what (error e) = err (plain_error what e)

-- `Exec`, with the number of rows affected tested against 0; the state is kept on an error.
abbrev pub affected : {S : Type 0} → Text → Answer (Bool × S) → S → Result (Unit {0}) × S
affected what (rows (true, t)) s = (ok tt, t)
affected what (rows (false, t)) s = (err not_found, t)
affected what (error e) s = (err (plain_error what e), s)

-- `INSERT … RETURNING` or `UPDATE … RETURNING`: the row, if there is one, and the new state.
abbrev pub returning {ℓ} :
    {A : Type ℓ} {S : Type 0} → Text → Answer (Option (A × S)) → S → Result A × S
returning what (rows (some (row, t))) s = (ok row, t)
returning what (rows none) s = (err not_found, s)
returning what (error e) s = (err (map_db_error what e), s)

-- The number that an integer from 0 on is, and 0 for a negative one.
abbrev pub to_ℕ : ℤ → ℕ
to_ℕ (pos n) = n
to_ℕ (negsuc n) = 0
