-- ===== src/Tests/Memory.antt =====
-- A file in the storage in memory.
use job_board.Prelude.{◌≡◌, refl, false, List, [], ◌∷◌, none, length, if◌then◌else◌}
use job_board.Prelude.Int.{pos}
use job_board.Text.{Text, txt, text_eq}
use job_board.Domain.Types.{Application, internal, ok}
use job_board.Storage.Resume.{Reader}
use job_board.Storage.Memory.{MemoryStorage, new_memory_storage, upload, download, count}
use job_board.Storage.Memory.Objects.{download-upload}
use job_board.Storage.Memory.Refines.{
  contents, memory_storage, next_to_storage, memory_storage-IsLawful,
}
use job_board.Service.World.{ApplicationRepository}
use job_board.Service.Applications.Apply.Cleanup.{IsLawful}

abbrev file : Reader
file = record { content = txt "%PDF-1"; breaks = false }

abbrev after : MemoryStorage
after = (upload none internal 7 (txt "k") file (pos 6) (txt "") new_memory_storage).1

uploaded :
    upload none internal 7 (txt "k") file (pos 6) (txt "") new_memory_storage ≡ (ok tt, after)
unfolding upload
uploaded = refl

one_object : count after ≡ 1
unfolding count upload new_memory_storage
one_object = refl

download-upload_example :
    (download none (txt "k") after
      ≡ ok (
        file,
        (
          if text_eq (txt "") (txt "") then txt "application/octet-stream" else txt "",
          length file.content,
        ),
      ))
    × ((other : Text)
        → text_eq (txt "k") other ≡ false
        → download none other after ≡ download none other new_memory_storage)
download-upload_example =
    download-upload none internal 7 (txt "k") file (pos 6) (txt "") new_memory_storage after
      uploaded

-- A repository whose state is the list of its applications.
abbrev list_repo : ApplicationRepository (List Application)
list_repo = record {
  create = λ app s. (ok app, app ∷ s);
  get_by_id = λ id s. ok none;
  list = λ f s. ok (s, 0);
  update_stage = λ id stage reason s. (ok tt, s);
}

memory_storage-IsLawful_example :
    IsLawful contents
      (memory_storage none internal 7 (λ s. s) (λ x. []))
      (next_to_storage list_repo)
memory_storage-IsLawful_example = memory_storage-IsLawful internal 7 (λ s. s) (λ x. []) list_repo
