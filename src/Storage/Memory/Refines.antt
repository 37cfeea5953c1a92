-- ===== src/Storage/Memory/Refines.antt =====
-- The storage in memory as the storage of the application service.
use job_board.Prelude.{
  ◌*◌, ◌≡◌, refl, sym, ap, Bool, true, false, Option, none, some, if◌then◌else◌, inl, inr,
  Bool-cases,
}
use job_board.Prelude.Int.{ℤ, pos}
use job_board.Text.{Text, text_eq}
use job_board.Domain.Types.{DomainError, ok, err, Time}
use job_board.Storage.Resume.{Reader}
use job_board.Storage.Memory.{
  StoredObject, MemoryStorage, upload, delete, get_presigned_url, get_object,
}
use job_board.Storage.Memory.Objects.{upload-IsUploaded, find-without}
use job_board.Service.World.{ApplicationRepository}
use job_board.Service.Applications.{Storage}
use job_board.Service.Applications.Apply.Cleanup.{IsLawful}

-- What the storage holds: the contents of its objects by their keys.
abbrev pub reader_of : Option StoredObject → Option Reader
reader_of none = none
reader_of (some obj) = some (record { content = obj.content; breaks = false })

abbrev pub contents : {D : Type 0} → MemoryStorage × D → Text → Option Reader
contents (m, d) key = reader_of (get_object key m)

abbrev pub beside : {A D : Type 0} → A × MemoryStorage → D → A × (MemoryStorage × D)
beside (a, m) d = (a, (m, d))

abbrev pub keeping : {A D : Type 0} → MemoryStorage → A × D → A × (MemoryStorage × D)
keeping m (a, d) = (a, (m, d))

-- The storage next to any other state, such as the database; a duration of the service is in
-- seconds.
unfoldable pub memory_storage :
    {D : Type 0}
    → Option DomainError
    → DomainError
    → Time
    → (Text → Text)
    → (ℤ → Text)
    → Storage (MemoryStorage × D)
unfolding upload delete get_presigned_url
memory_storage cancelled read_error now query_escape deadline = record {
  upload =
      λ key body size type (m, d). beside (upload cancelled read_error now key body size type m) d;
  delete = λ key (m, d). beside (delete cancelled key m) d;
  get_presigned_url = λ key seconds (m, d).
      get_presigned_url cancelled query_escape deadline key (pos (seconds * 1000000000)) m;
}

-- A repository next to the storage.
unfoldable pub next_to_storage :
    {D : Type 0} → ApplicationRepository D → ApplicationRepository (MemoryStorage × D)
next_to_storage apps = record {
  create = λ app (m, d). keeping m (apps.create app d);
  get_by_id = λ id (m, d). apps.get_by_id id d;
  list = λ f (m, d). apps.list f d;
  update_stage = λ id stage reason (m, d). keeping m (apps.update_stage id stage reason d);
}

whole_reader : (r : Reader) → r.breaks ≡ false → record { content = r.content; breaks = false } ≡ r
whole_reader r whole =
    let give : Bool → Reader = λ b. record { content = r.content; breaks = b } in
    ap give (sym whole)

contents_of_if :
    (same : Bool) (obj : StoredObject) (r : Reader) (old : Option StoredObject)
    → record { content = obj.content; breaks = false } ≡ r
    → reader_of (if same then some obj else old) ≡ (if same then some r else reader_of old)
contents_of_if true obj r old e = ap some e
contents_of_if false obj r old e = refl

contents_of_none :
    (same : Bool) (old : Option StoredObject)
    → reader_of (if same then none else old) ≡ (if same then none else reader_of old)
contents_of_none true old = refl
contents_of_none false old = refl

module _ (read_error : DomainError) (now : Time) (query_escape : Text → Text)
    (deadline : ℤ → Text) where
  uploads_lem :
      (key : Text) (r : Reader) (size : ℤ) (type : Text) (m after : MemoryStorage) (other : Text)
      → upload none read_error now key r size type m ≡ (ok tt, after)
      → reader_of (get_object other after)
        ≡ (if text_eq key other then some r else reader_of (get_object other m))
  uploads_lem key r size type m after other e =
      let h = upload-IsUploaded none read_error now key r size type m after e in
      rw (h.object other)
        (contents_of_if (text_eq key other) _ r (get_object other m) (whole_reader r h.whole))

  rejects_lem :
      (key : Text) (r : Reader) (size : ℤ) (type : Text) (m after : MemoryStorage) (e : DomainError)
      → upload none read_error now key r size type m ≡ (err e, after)
      → after ≡ m
  unfolding upload
  rejects_lem key r size type m after x e = elim (Bool-cases r.breaks) [
    | inl breaks ↦ sym (ap (λ p. p.1) (rw breaks at e))
    | inr whole ↦ cc (rw whole at e)
  ]

  deletes_lem :
      (key other : Text) (m : MemoryStorage)
      → reader_of (get_object other (delete none key m).1)
        ≡ (if text_eq key other then none else reader_of (get_object other m))
  unfolding delete get_object
  deletes_lem key other m =
      rw (find-without key other m.objects)
        (contents_of_none (text_eq key other) (get_object other m))

  -- In a context that goes on, the storage in memory is a storage as the application service needs
  -- it: what it holds is a function from keys to contents, to which an upload that succeeds adds the
  -- whole body, one that fails nothing, and from which a deletion takes the key; a repository next to
  -- it does not touch it.
  pub memory_storage-IsLawful :
      {D : Type 0} (apps : ApplicationRepository D)
      → IsLawful contents
          (memory_storage none read_error now query_escape deadline)
          (next_to_storage apps)
  unfolding memory_storage next_to_storage
  memory_storage-IsLawful {D} apps = record {
    uploads = λ key r size type s t e other.
        (uploads_lem key r size type s.0 t.0 other (ap (λ p. (p.0, (p.1).0)) e));
    rejects = λ key r size type s t x e other.
        ap (λ m. reader_of (get_object other m))
          (rejects_lem key r size type s.0 t.0 x (ap (λ p. (p.0, (p.1).0)) e));
    deletes = λ key s other. deletes_lem key other s.0;
    apart = λ app s other. refl;
  }
