-- ===== src/Storage/Memory/Objects.antt =====
-- Which objects a storage in memory holds after its operations.
use job_board.Prelude.{
  ℕ, ◌≡◌, refl, sym, ap, ◌∙◌, Bool, true, false, not, List, ◌∷◌, Option, none, some, if◌then◌else◌,
  filter, find, find-filter-not, any-filter-not, find-none, inl, inr, Bool-cases, length,
  Option-cases,
}
use job_board.Prelude.Int.{ℤ}
use job_board.Text.{Text, txt, text_eq}
use job_board.Text.Equality.{text_eq_sound, text_eq_refl}
use job_board.Domain.Types.{DomainError, Result, ok, Time}
use job_board.Storage.Resume.{Reader}
use job_board.Storage.Memory.{StoredObject, MemoryStorage, has_key, upload, download, get_object}

-- The object under a key, once the one under `key` is removed.
pub find-without :
    (key other : Text) (objects : List StoredObject)
    → find (has_key other) (filter (λ obj. not (has_key key obj)) objects)
      ≡ (if text_eq key other then none else find (has_key other) objects)
find-without key other objects = elim (Bool-cases (text_eq key other)) [
  | inl same ↦
      let e : key ≡ other = text_eq_sound key other same in
      rw (same, e) (find-none (has_key other) _ (any-filter-not (has_key other) objects))
  | inr apart ↦ rw apart (
      find-filter-not (has_key other) (has_key key) objects
        (λ obj found. differs obj.key other key apart found))
]
  where
    differs : (a b c : Text) → text_eq c b ≡ false → text_eq a b ≡ true → text_eq a c ≡ false
    differs a b c n e = elim (Bool-cases (text_eq a c)) [
      | inl same ↦
          let x : a ≡ b = text_eq_sound a b e in
          let y : a ≡ c = text_eq_sound a c same in
          let yes : text_eq c b ≡ true = rw (← y, x) (text_eq_refl b) in cc
      | inr apart ↦ apart
    ]

find-put :
    (new : StoredObject) (objects : List StoredObject) (other : Text)
    → find (has_key other) (new ∷ filter (λ obj. not (has_key new.key obj)) objects)
      ≡ (if text_eq new.key other then some new else find (has_key other) objects)
find-put new objects other = elim (Bool-cases (text_eq new.key other)) [
  | inl same ↦ rw same refl
  | inr apart ↦ rw apart (rw apart at (find-without new.key other objects))
]

-- An upload that succeeds read its body to the end, and the object under its key is that body; the
-- objects under other keys stay.
pub record IsUploaded (now : Time) (key : Text) (body : Reader) (content_type : Text)
    (m after : MemoryStorage) : Type 0 where
  pub whole : body.breaks ≡ false
  pub object :
      (other : Text)
      → get_object other after ≡ (
          if text_eq key other
          then some (record {
            key = key;
            content = body.content;
            content_type =
                if text_eq content_type (txt "")
                then txt "application/octet-stream"
                else content_type;
            size = length body.content;
            updated_at = now;
          })
          else get_object other m)

module _ (cancelled : Option DomainError) (read_error : DomainError) where
  pub upload-IsUploaded :
      (now : Time) (key : Text) (body : Reader) (size : ℤ) (content_type : Text)
      (m after : MemoryStorage)
      → upload cancelled read_error now key body size content_type m ≡ (ok tt, after)
      → IsUploaded now key body content_type m after
  unfolding upload get_object
  upload-IsUploaded now key body size content_type m after e = elim (Option-cases cancelled) [
    | inr (x, over) ↦ cc (rw over at e)
    | inl going ↦ elim (Bool-cases body.breaks) [
      | inl breaks ↦ cc (rw (going, breaks) at e)
      | inr whole ↦
          let same = ap (λ p. (p.1).objects) (rw (going, whole) at e) in
          record {
            whole = whole;
            object = λ other. ap (find (has_key other)) (sym same) ∙ find-put _ m.objects other;
          }
    ]
  ]

  -- After an Upload that succeeds, a Download in a context that is not over gives for its key the file
  -- that was uploaded, to the last byte and with its content type, or the general one where it was
  -- uploaded without; for every other key it gives what it would have given before.
  pub download-upload :
      (now : Time) (key : Text) (body : Reader) (size : ℤ) (content_type : Text)
      (m after : MemoryStorage)
      → upload cancelled read_error now key body size content_type m ≡ (ok tt, after)
      → (download none key after
          ≡ ok (
            body,
            (
              if text_eq content_type (txt "")
                  then txt "application/octet-stream"
                  else content_type,
              length body.content,
            ),
          ))
        × ((other : Text)
            → text_eq key other ≡ false
            → download none other after ≡ download none other m)
  unfolding download get_object
  download-upload now key body size content_type m after e =
      let h = upload-IsUploaded now key body size content_type m after e in
      let type =
        if text_eq content_type (txt "") then txt "application/octet-stream" else content_type in
      let give : Bool → Result (Reader × (Text × ℕ)) =
        λ b. ok (record { content = body.content; breaks = b }, (type, length body.content)) in
      (
        rw (h.object key, text_eq_refl key) (ap give (sym h.whole)),
        λ other n. rw (h.object other, n) refl,
      )
