-- ===== src/Store/Integrity/KeyRows.antt =====
-- The statements on the keys keep the database consistent.
use job_board.Prelude.{
  ◌≡◌, Bool, false, not, ◌||◌, List, ◌∷◌, some, if◌then◌else◌, any, filter, map, arith, ◌==◌,
}
use job_board.Domain.Types.{ApiKey, Time, scope_public, scope_admin}
use job_board.Text.{Text, txt, text_eq}
use job_board.Store.Database.{
  Database, Postgres, Answer, rows, error, failed, unique_violation, accepted,
}
use job_board.Store.Keys
use job_board.Store.Keys.{is_key, has_hash, insert_key, created, update_last_used}
use job_board.Store.Integrity.Tables.{Unique, Unique-filter, Unique-map}
use job_board.Store.Integrity.Answers.{
  Answered, AtState, Answered-if, Answered-accepted, Answered-with_uuid, Answered-with_new_uuid,
  AtState-affected,
}
use job_board.Store.Integrity.Rules.{IsConsistent}

keys-IsConsistent :
    (db : Database) (keys : List ApiKey)
    → IsConsistent db
    → Unique (λ key. key.id) keys
    → Unique (λ key. key.key_hash) keys
    → IsConsistent (record db { keys = keys })
keys-IsConsistent db keys h ids hashes = record {
  jobs_fit = h.jobs_fit;
  apps_fit = h.apps_fit;
  notes_fit = h.notes_fit;
  key_ids = ids;
  key_hashes = hashes;
  subscription_ids = h.subscription_ids;
}

module _ (pg : Postgres) (db : Database) (h : IsConsistent db) where
  AtState-created :
      (a : Answer (ApiKey × Database))
      → Answered (AtState IsConsistent) a
      → AtState IsConsistent (created a db)
  AtState-created (rows (key, t)) g = g
  AtState-created (error e) g = h

  insert_key-IsConsistent :
      (now : Time) (uuid : Text) (key : ApiKey)
      → Answered (AtState IsConsistent) (insert_key pg now uuid key db)
  unfolding insert_key
  insert_key-IsConsistent now uuid key =
      let new = record key {
        id = uuid;
        created_at = if key.created_at == 0 then now else key.created_at;
      } in
      let taken = any (is_key uuid) db.keys || any (has_hash key.key_hash) db.keys in
      let added : Answer (ApiKey × Database) = rows (new, record db { keys = new ∷ db.keys }) in
      let stored = if taken then error unique_violation else added in
      let fits = text_eq key.scope scope_public || text_eq key.scope scope_admin in
      Answered-if (AtState {A = ApiKey} IsConsistent) (not fits)
        (error (failed (txt "invalid input value for enum"))) (accepted (pg.refuses_key new) stored)
        (λ e. tt)
        (λ e. Answered-accepted (AtState {A = ApiKey} IsConsistent) (pg.refuses_key new) stored (
          Answered-if (AtState {A = ApiKey} IsConsistent) taken (error unique_violation) added
            (λ e. tt)
            (λ (fresh : taken ≡ false).
              keys-IsConsistent db (new ∷ db.keys) h (ground arith, h.key_ids)
                (ground arith, h.key_hashes))))

  pub create_key-IsConsistent :
      (now : Time) (fresh : Text) (key : ApiKey)
      → AtState IsConsistent (Keys.create_row pg now fresh key db)
  unfolding Keys.create_row
  create_key-IsConsistent now fresh key = AtState-created _ (
      Answered-with_new_uuid (AtState {A = ApiKey} IsConsistent) pg fresh key.id _
        (λ uuid. insert_key-IsConsistent now uuid key))

  pub update_last_used-IsConsistent :
      (id : Text) (t : Time) → AtState IsConsistent (update_last_used pg id t db)
  unfolding update_last_used
  update_last_used-IsConsistent id t = AtState-affected IsConsistent _ _ db h (
      Answered-with_uuid (AtState {A = Bool} IsConsistent) pg id _ (λ uuid.
        let used : ApiKey → ApiKey =
          λ key. if is_key uuid key then record key { last_used_at = some t } else key in
        keys-IsConsistent db (map used db.keys) h
          (Unique-map (λ key. key.id) used db.keys (λ key. ground arith) h.key_ids)
          (Unique-map (λ key. key.key_hash) used db.keys (λ key. ground arith) h.key_hashes)))

  pub delete_key-IsConsistent : (id : Text) → AtState IsConsistent (Keys.delete_row pg id db)
  unfolding Keys.delete_row
  delete_key-IsConsistent id = AtState-affected IsConsistent _ _ db h (
      Answered-with_uuid (AtState {A = Bool} IsConsistent) pg id _ (λ uuid.
        let keep : ApiKey → Bool = λ key. not (is_key uuid key) in
        keys-IsConsistent db (filter keep db.keys) h
          (Unique-filter (λ key. key.id) keep db.keys h.key_ids)
          (Unique-filter (λ key. key.key_hash) keep db.keys h.key_hashes)))
