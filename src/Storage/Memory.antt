-- ===== src/Storage/Memory.antt =====
-- internal/storage/memory.go: the storage that keeps its objects in memory. The error of a context
-- that is over, the clock and url.QueryEscape are arguments. Each operation holds the lock.
pub mod Objects
pub mod Refines
use job_board.Prelude.{
  ℕ, Bool, true, false, not, List, [], ◌∷◌, ◌++◌, Option, none, some, if◌then◌else◌, any, filter,
  find, length,
}
use job_board.Prelude.Int.{ℤ, pos, ltb_ℤ}
use job_board.Text.{Text, txt, text_eq, trim_prefix}
use job_board.Domain.Types.{DomainError, other, wrapped, Result, ok, err, Time}
use job_board.Storage.Resume.{Reader}

pub record StoredObject : Type 0 where
  pub key : Text
  pub content : List ℕ
  pub content_type : Text
  pub size : ℕ
  pub updated_at : Time

-- The map `objects` is the list of its values, each with its key; a duration is in nanoseconds.
pub record MemoryStorage : Type 0 where
  pub objects : List StoredObject
  pub default_expiry : ℤ
  pub base_url : Text

abbrev pub has_key : Text → StoredObject → Bool
has_key key obj = text_eq obj.key key

-- `NewMemoryStorage`
unfoldable pub new_memory_storage : MemoryStorage
new_memory_storage = record {
  objects = [];
  default_expiry = pos 900000000000;
  base_url = txt "https://mock-storage.local";
}

-- `SetBaseURL`
unfoldable pub set_base_url : Text → MemoryStorage → MemoryStorage
set_base_url base_url m = record m { base_url = base_url }

abbrev without_key : Text → List StoredObject → List StoredObject
without_key key = filter (λ obj. not (has_key key obj))

abbrev object_not_found : DomainError
object_not_found = other (txt "object not found")

-- The operations in a context with the error `cancelled`, if it is over.
module _ (cancelled : Option DomainError) where
  abbrev checked {ℓ} : {A : Type ℓ} → Result A → Result A
  checked result = elim cancelled [ some e ↦ err e | none ↦ result ]

  -- `Upload` at a time, `read_error` being what a reader that breaks fails with; the declared size is not used.
  unfoldable pub upload :
      DomainError
      → Time
      → Text
      → Reader
      → ℤ
      → Text
      → MemoryStorage
      → Result (Unit {0}) × MemoryStorage
  upload read_error now key body size content_type m =
      let new : StoredObject = record {
        key = key;
        content = body.content;
        content_type =
            if text_eq content_type (txt "") then txt "application/octet-stream" else content_type;
        size = length body.content;
        updated_at = now;
      } in
      elim cancelled [
        | some e ↦ (err e, m)
        | none ↦
            if body.breaks
            then (err (wrapped (txt "failed to read body") read_error), m)
            else (ok tt, record m { objects = new ∷ without_key key m.objects })
      ]

  abbrev presigned : (Text → Text) → (ℤ → Text) → Text → ℤ → Option StoredObject → Result Text
  presigned query_escape deadline base_url expiry none = err object_not_found
  presigned query_escape deadline base_url expiry (some obj) = ok (
      base_url
      ++ (b'/'
          ∷ (trim_prefix obj.key (txt "/")
              ++ (txt "?expires="
                  ++ (deadline expiry
                      ++ (txt "&content_type=" ++ query_escape obj.content_type))))))

  -- `GetPresignedURL`; `deadline expiry` is the Unix time of now and `expiry`, as it is printed.
  unfoldable pub get_presigned_url :
      (Text → Text) → (ℤ → Text) → Text → ℤ → MemoryStorage → Result Text
  get_presigned_url query_escape deadline key expiry m = checked (
      presigned query_escape deadline m.base_url
        (if ltb_ℤ (pos 0) expiry then expiry else m.default_expiry) (find (has_key key) m.objects))

  -- `Delete`
  unfoldable pub delete : Text → MemoryStorage → Result (Unit {0}) × MemoryStorage
  delete key m = elim cancelled [
    | some e ↦ (err e, m)
    | none ↦ (ok tt, record m { objects = without_key key m.objects })
  ]

  abbrev downloaded : Option StoredObject → Result (Reader × (Text × ℕ))
  downloaded none = err object_not_found
  downloaded (some obj) =
      ok (record { content = obj.content; breaks = false }, (obj.content_type, obj.size))

  -- `Download`: a reader of the content, the content type and the size.
  unfoldable pub download : Text → MemoryStorage → Result (Reader × (Text × ℕ))
  download key m = checked (downloaded (find (has_key key) m.objects))

  -- `Exists`
  unfoldable pub exists : Text → MemoryStorage → Result Bool
  exists key m = checked (ok (any (has_key key) m.objects))

-- `GetObject`
unfoldable pub get_object : Text → MemoryStorage → Option StoredObject
get_object key m = find (has_key key) m.objects

-- `Count`
unfoldable pub count : MemoryStorage → ℕ
count m = length m.objects

-- `Reset`
unfoldable pub reset : MemoryStorage → MemoryStorage
reset m = record m { objects = [] }
