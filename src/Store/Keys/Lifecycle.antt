-- ===== src/Store/Keys/Lifecycle.antt =====
-- From the generation of a key to its deletion: the middleware over the repository.
use job_board.Prelude.{
  ℕ, ◌≡◌, refl, ◌≢◌, ◌∙◌, Bool, true, false, not, ◌||◌, List, [], ◌∷◌, Option, none, some,
  if◌then◌else◌, any, filter, find, find-none, inl, inr, Bool-cases, ◌==◌,
}
use job_board.Text.{Text, txt, text_eq}
use job_board.Text.Equality.{text_eq_sound, text_eq_refl}
use job_board.Domain.Types.{ApiKey, ApiKeyScope, Time, scope_public, scope_admin, ok}
use job_board.Auth.{
  fine, Headers, extract_api_key, has_required_scope, serve, respond, api_key_auth, generate_key,
}
use job_board.Auth.Generated.{Bytes}
use job_board.Auth.Admitted.{generated_key_is_admitted, api_key_auth-refused}
use job_board.Store.Database.{
  Database, Postgres, Answer, rows, error, failed, unique_violation, without_uuid, accepted,
}
use job_board.Store.Keys.{
  is_key, has_hash, insert_key, created, create_row, found, get_by_hash, delete_row,
}
use job_board.Store.Integrity.Tables.{Unique, has, any-filter-false}
use job_board.Store.Integrity.Answers.{
  Answered, Answered-accepted, Answered-if, Answered-with_uuid_of, Answered-with_new_uuid, AtState,
  affected-ok, without_uuid-rows,
}
use job_board.Store.Integrity.Rules.{IsConsistent}

-- The only row with a key is gone with it.
find-filter_gone :
    {A : Type 0} (key : A → Text) (k : Text) (q : A → Bool) (xs : List A) {x : A}
    → Unique key xs
    → find (has key k) xs ≡ some x
    → q x ≡ false
    → find (has key k) (filter q xs) ≡ none
find-filter_gone key k q [] u e g = refl
find-filter_gone key k q (y ∷ ys) {x} (n, u) e g = elim (Bool-cases (has key k y)) [
  | inl here ↦
      let same : y ≡ x = cc (rw here at e) in
      let skip : q y ≡ false = rw same g in
      let only : any (has key k) ys ≡ false = rw (← (text_eq_sound (key y) k here)) n in
      rw skip (find-none (has key k) (filter q ys) (any-filter-false (has key k) q ys only))
  | inr there ↦
      let rest = find-filter_gone key k q ys u (rw there at e) g in
      elim (Bool-cases (q y)) [ inl keep ↦ rw keep (rw there rest) | inr skip ↦ rw skip rest ]
]

-- What an INSERT leaves behind for a key.
abbrev IsStored : ApiKey → ApiKey × Database → Type 0
IsStored key (row, after) =
    (row.scope ≡ key.scope) × (find (has_hash key.key_hash) after.keys ≡ some row)

insert_key-IsStored :
    (pg : Postgres) (now : Time) (uuid : Text) (key : ApiKey) (db : Database)
    → Answered (IsStored key) (insert_key pg now uuid key db)
unfolding insert_key
insert_key-IsStored pg now uuid key db =
    let new = record key {
      id = uuid;
      created_at = if key.created_at == 0 then now else key.created_at;
    } in
    let taken = any (is_key uuid) db.keys || any (has_hash key.key_hash) db.keys in
    let added : Answer (ApiKey × Database) = rows (new, record db { keys = new ∷ db.keys }) in
    let stored = if taken then error unique_violation else added in
    let fits = text_eq key.scope scope_public || text_eq key.scope scope_admin in
    Answered-if (IsStored key) (not fits) (error (failed (txt "invalid input value for enum")))
      (accepted (pg.refuses_key new) stored) (λ e. tt)
      (λ e. Answered-accepted (IsStored key) (pg.refuses_key new) stored (
        Answered-if (IsStored key) taken (error unique_violation) added (λ e. tt)
          (λ e. (refl, rw (text_eq_refl key.key_hash) refl))))

created-IsStored :
    (key : ApiKey) (a : Answer (ApiKey × Database)) (db : Database) (row : ApiKey)
    (after : Database)
    → Answered (IsStored key) a
    → created a db ≡ (ok row, after)
    → IsStored key (row, after)
created-IsStored key (rows (k, t)) db row after h e =
    let same_row : k ≡ row = cc in let same : t ≡ after = cc in rw (← same_row, ← same) h
created-IsStored key (error x) db row after h e = cc

get_by_hash_lem :
    (later : Postgres) (hash : Text) (db : Database)
    → later.fault ≡ none
    → get_by_hash later hash db
      ≡ found (txt "failed to get api key by hash") (rows (find (has_hash hash) db.keys))
unfolding get_by_hash
get_by_hash_lem later hash db up = rw up refl

found-rows :
    (what : Text) (a : Answer (Option ApiKey)) (row : ApiKey)
    → found what a ≡ ok row
    → a ≡ rows (some row)
found-rows what (rows none) row e = cc
found-rows what (rows (some key)) row e = let same : key ≡ row = cc in rw same refl
found-rows what (error x) row e = cc

found-ok :
    (pg : Postgres) (hash : Text) (db : Database) (row : ApiKey)
    → get_by_hash pg hash db ≡ ok row
    → find (has_hash hash) db.keys ≡ some row
unfolding get_by_hash
found-ok pg hash db row e =
    let answer = found-rows _ (without_uuid pg (rows (find (has_hash hash) db.keys))) row e in
    cc (without_uuid-rows pg (rows (find (has_hash hash) db.keys)) answer)

-- A key that GenerateKey makes and Create stores, sent in X-API-Key, is served wherever its scope is
-- enough, as long as the database answers.
pub created_key_is_served :
    (sha256_hex : Text → Text) (pg later : Postgres) (required : ApiKeyScope) (authorization : Text)
    (now : Time) (bytes : List ℕ) (name : Text) (scope : ApiKeyScope) (fresh raw_key : Text)
    (key row : ApiKey) (db after : Database)
    → bytes ≢ []
    → Bytes bytes
    → generate_key sha256_hex now (some bytes) name scope ≡ fine (raw_key, key)
    → create_row pg now fresh key db ≡ (ok row, after)
    → later.fault ≡ none
    → has_required_scope scope required ≡ true
    → api_key_auth sha256_hex
        (λ hash. get_by_hash later hash after)
        required
        (record { x_api_key = raw_key; authorization = authorization })
      ≡ serve row
unfolding create_row
created_key_is_served sha256_hex pg later required authorization now bytes name scope fresh raw_key
      key row db after ne h e put up enough =
    let (same_scope, there) =
      created-IsStored key _ db row after
        (Answered-with_new_uuid (IsStored key) pg fresh key.id _
          (λ uuid. insert_key-IsStored pg now uuid key db))
        put in
    generated_key_is_admitted sha256_hex (λ hash. get_by_hash later hash after) required
      authorization now bytes name scope raw_key key row ne h e
      (get_by_hash_lem later key.key_hash after up ∙ rw there refl) same_scope enough

-- Once a key of a consistent database is deleted, a request with it is answered with 401, whatever
-- endpoint it asks for, if the id of its row is in the form that PostgreSQL writes and the database
-- answers the lookup of that request.
pub deleted_key_is_refused :
    (sha256_hex : Text → Text) (pg later : Postgres) (required : ApiKeyScope) (r : Headers)
    (row : ApiKey) (db after : Database)
    → IsConsistent db
    → get_by_hash pg (sha256_hex (extract_api_key r)) db ≡ ok row
    → pg.read_uuid row.id ≡ some row.id
    → delete_row pg row.id db ≡ (ok tt, after)
    → later.fault ≡ none
    → api_key_auth sha256_hex (λ hash. get_by_hash later hash after) required r
      ≡ respond 401 (txt "INVALID_API_KEY")
unfolding delete_row
deleted_key_is_refused sha256_hex pg later required r row db after h stored canonical gone up =
    let hash = sha256_hex (extract_api_key r) in
    let there = found-ok pg hash db row stored in
    let absent : find (has_hash hash) after.keys ≡ none =
      affected-ok (λ (t : Database). find (has_hash hash) t.keys ≡ none) _ _ db after gone
        (Answered-with_uuid_of
          (AtState {A = Bool} (λ (t : Database). find (has_hash hash) t.keys ≡ none)) pg row.id _
          row.id canonical
          (find-filter_gone (λ key. key.key_hash) hash (λ key. not (is_key row.id key)) db.keys
            h.key_hashes there (rw (text_eq_refl row.id) refl))) in
    api_key_auth-refused sha256_hex (λ hash. get_by_hash later hash after) required r
      (get_by_hash_lem later hash after up ∙ rw absent refl)
