-- ===== src/Store/Jobs/Found.antt =====
-- A job that was created is found: the job service over the repository.
use job_board.Prelude.{
  ◌≡◌, refl, Bool, true, false, not, ◌||◌, ◌∷◌, Option, none, some, if◌then◌else◌, any, find,
}
use job_board.Text.{Text, txt}
use job_board.Text.Equality.{text_eq_refl}
use job_board.Domain.Types.{Job, Time, status_published, ok}
use job_board.Domain.Values.{Platform}
use job_board.Service.World.{World}
use job_board.Service.Jobs.{CreateJobInput, new_job, create_job, get_published_job}
use job_board.Service.Jobs.Created.{create_job-IsCreated}
use job_board.Service.Jobs.Reads.{get_published_job_iff}
use job_board.Store.Uuid.{is_uuid}
use job_board.Store.Database.{
  Database, Postgres, Answer, rows, error, failed, unique_violation, accepted,
}
use job_board.Store.Jobs.{
  has_id, has_slug, enums_fit, with_defaults, job_row, insert_job, create_row, get_by_id,
  get_by_slug, get_by_id_or_slug, job_repository,
}
use job_board.Store.Integrity.Answers.{
  Answered, Answered-if, Answered-accepted, Answered-with_new_uuid, Returned, returning-ok,
}

-- What an INSERT leaves behind for a job.
abbrev IsKept : Postgres → Job → Database → Type 0
IsKept pg job after =
    (find (has_id job.id) after.jobs ≡ some (job_row pg job))
    × (find (has_slug job.slug) after.jobs ≡ some (job_row pg job))

insert_job-IsKept :
    (pg : Postgres) (now : Time) (uuid : Text) (job : Job) (db : Database)
    → Answered (Returned (IsKept pg)) (insert_job pg now uuid job db)
unfolding insert_job
insert_job-IsKept pg now uuid job db =
    let new = record job { id = uuid; created_at = now; updated_at = now } in
    let taken = any (has_id uuid) db.jobs || any (has_slug job.slug) db.jobs in
    let added : Answer (Option (Job × Database)) =
      rows (some (new, record db { jobs = job_row pg new ∷ db.jobs })) in
    let stored = if taken then error unique_violation else added in
    Answered-if (Returned (IsKept pg)) (not (enums_fit job))
      (error (failed (txt "invalid input value for enum")))
      (accepted (pg.refuses_job (job_row pg new)) stored) (λ e. tt)
      (λ e. Answered-accepted (Returned (IsKept pg)) (pg.refuses_job (job_row pg new)) stored (
        Answered-if (Returned (IsKept pg)) taken (error unique_violation) added (λ e. tt)
          (λ e. (rw (text_eq_refl uuid) refl, rw (text_eq_refl job.slug) refl))))

create_row-IsKept :
    (pg : Postgres) (now : Time) (fresh : Text) (job made : Job) (db after : Database)
    → create_row pg now fresh job db ≡ (ok made, after)
    → IsKept pg made after
unfolding create_row
create_row-IsKept pg now fresh job made db after e = returning-ok (IsKept pg) _ _ db after made e (
    Answered-with_new_uuid (Returned (IsKept pg)) pg fresh job.id _
      (λ uuid. insert_job-IsKept pg now uuid (with_defaults job) db))

module _ (later : Postgres) (up : later.fault ≡ none) (db : Database) (job : Job) where
  get_by_slug_found :
      (slug : Text)
      → find (has_slug slug) db.jobs ≡ some job
      → get_by_slug later slug db ≡ ok (some job)
  unfolding get_by_slug
  get_by_slug_found slug e = rw (up, e) refl

  get_by_id_found :
      (id : Text)
      → later.read_uuid id ≡ some id
      → find (has_id id) db.jobs ≡ some job
      → get_by_id later id db ≡ ok (some job)
  unfolding get_by_id
  get_by_id_found id c e = rw (up, c, e) refl

  by_slug_found :
      (slug : Text)
      → is_uuid slug ≡ false
      → find (has_slug slug) db.jobs ≡ some job
      → get_by_id_or_slug later slug db ≡ ok (some job)
  unfolding get_by_id_or_slug
  by_slug_found slug n e = rw (n, get_by_slug_found slug e) refl

  by_id_found :
      (id : Text)
      → is_uuid id ≡ true
      → later.read_uuid id ≡ some id
      → find (has_id id) db.jobs ≡ some job
      → get_by_id_or_slug later id db ≡ ok (some job)
  unfolding get_by_id_or_slug
  by_id_found id u c e = rw (u, get_by_id_found id c e) refl

-- A job that CreateJob makes as a published one, whose slug has not the form of a uuid and whose id
-- is a uuid in the form in which PostgreSQL writes it, is the job that GetPublishedJob gives both for
-- this slug and for this id, its salaries as NUMERIC(12, 2) keeps them, if the database answers the
-- later call and no other call is made between the two.
pub created_job_is_found :
    (P : Platform) (pg later : Postgres) (webhooks : Bool) (now then_now : Time)
    (id fresh other : Text) (input : CreateJobInput) (w w' : World Database) (job : Job)
    → create_job P (job_repository pg now fresh) webhooks now id input w ≡ (ok job, w')
    → job.status ≡ status_published
    → later.fault ≡ none
    → is_uuid job.slug ≡ false
    → is_uuid job.id ≡ true
    → later.read_uuid job.id ≡ some job.id
    → (get_published_job (job_repository later then_now other) job.slug w'.store
        ≡ ok (job_row pg job))
      × (get_published_job (job_repository later then_now other) job.id w'.store
          ≡ ok (job_row pg job))
created_job_is_found P pg later webhooks now then_now id fresh other input w w' job e published up
      by_slug by_id canonical =
    let repo = job_repository pg now fresh in
    let made = create_job-IsCreated P repo webhooks now id input w w' job e in
    let stored : create_row pg now fresh (new_job P now id input) w.store ≡ (ok job, w'.store) =
      unfold job_repository in made.stored in
    let (at_id, at_slug) =
      create_row-IsKept pg now fresh (new_job P now id input) job w.store w'.store stored in
    let read = job_repository later then_now other in
    (
      (get_published_job_iff read job.slug w'.store (job_row pg job)).1 (
        unfold job_repository in
            by_slug_found later up w'.store (job_row pg job) job.slug by_slug at_slug,
        published,
      ),
      (get_published_job_iff read job.id w'.store (job_row pg job)).1 (
        unfold job_repository in
            by_id_found later up w'.store (job_row pg job) job.id by_id canonical at_id,
        published,
      ),
    )
