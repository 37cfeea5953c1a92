-- ===== src/Store/Keys.antt =====
-- internal/store/postgres/api_key_repo.go
pub mod Lifecycle
use job_board.Prelude.{
  Bool, not, ◌||◌, List, ◌∷◌, Option, none, some, ◌==◌, if◌then◌else◌, any, filter, find, map,
}
use job_board.Text.{Text, txt, text_eq}
use job_board.Domain.Types.{
  ApiKey, Time, scope_public, scope_admin, conflict, DomainError, not_found, Result, ok, err,
}
use job_board.Store.Database.{
  Database, Postgres, DbError, unique_violation, failed, plain_error, Answer, rows, error,
  with_uuid, without_uuid, with_new_uuid, accepted, affected,
}

abbrev pub is_key : Text → ApiKey → Bool
is_key id key = text_eq key.id id

abbrev pub has_hash : Text → ApiKey → Bool
has_hash hash key = text_eq key.key_hash hash

-- The error of `Create`, which tells only unique violations apart.
abbrev key_error : DbError → DomainError
key_error unique_violation = conflict
key_error e = plain_error (txt "failed to create api key") e

abbrev pub created : Answer (ApiKey × Database) → Database → Result ApiKey × Database
created (rows (key, t)) db = (ok key, t)
created (error e) db = (err (key_error e), db)

abbrev pub found : Text → Answer (Option ApiKey) → Result ApiKey
found what (rows none) = err not_found
found what (rows (some key)) = ok key
found what (error e) = err (plain_error what e)

module _ (pg : Postgres) where
  unfoldable pub insert_key : Time → Text → ApiKey → Database → Answer (ApiKey × Database)
  insert_key now uuid key db =
      let new = record key {
        id = uuid;
        created_at = if key.created_at == 0 then now else key.created_at;
      } in
      if not (text_eq key.scope scope_public || text_eq key.scope scope_admin)
      then error (failed (txt "invalid input value for enum"))
      else accepted (pg.refuses_key new) (
          if any (is_key uuid) db.keys || any (has_hash key.key_hash) db.keys
          then error unique_violation
          else rows (new, record db { keys = new ∷ db.keys }))

  -- `Create`, at the time NOW() and with the random uuid `fresh`; the zero time is 0.
  unfoldable pub create_row : Time → Text → ApiKey → Database → Result ApiKey × Database
  unfolding insert_key
  create_row now fresh key db =
      created (with_new_uuid pg fresh key.id (λ uuid. insert_key now uuid key db)) db

  -- `GetByHash`
  unfoldable pub get_by_hash : Text → Database → Result ApiKey
  get_by_hash hash db =
      found (txt "failed to get api key by hash")
        (without_uuid pg (rows (find (has_hash hash) db.keys)))

  -- `GetByID`
  unfoldable pub get_by_id : Text → Database → Result ApiKey
  get_by_id id db =
      found (txt "failed to get api key by id")
        (with_uuid pg id (λ uuid. rows (find (is_key uuid) db.keys)))

  abbrev keys_listed : Answer (List ApiKey) → Result (List ApiKey)
  keys_listed (rows xs) = ok xs
  keys_listed (error e) = err (plain_error (txt "failed to list api keys") e)

  -- `List`
  unfoldable pub list_rows : Database → Result (List ApiKey)
  list_rows db = keys_listed (without_uuid pg (rows (pg.order_keys db.keys)))

  -- `UpdateLastUsed`
  unfoldable pub update_last_used : Text → Time → Database → Result (Unit {0}) × Database
  update_last_used id last_used db =
      affected (txt "failed to update api key last_used_at")
        (with_uuid pg id (λ uuid. rows (
          any (is_key uuid) db.keys,
          record db {
            keys =
                map
                  (λ key.
                    if is_key uuid key then record key { last_used_at = some last_used } else key)
                  db.keys;
          },
        )))
        db

  -- `Delete`
  unfoldable pub delete_row : Text → Database → Result (Unit {0}) × Database
  delete_row id db =
      affected (txt "failed to delete api key")
        (with_uuid pg id (λ uuid. rows (
          any (is_key uuid) db.keys,
          record db { keys = filter (λ key. not (is_key uuid key)) db.keys },
        )))
        db
