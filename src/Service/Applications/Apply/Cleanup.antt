-- ===== src/Service/Applications/Apply/Cleanup.antt =====
-- A call of Apply that fails leaves no resume behind.
use job_board.Prelude.{
  ◌≡◌, refl, sym, ap, ◌∙◌, Bool, not, Option, none, some, inl, inr, Bool-cases, is_empty,
  if◌then◌else◌,
}
use job_board.Prelude.Int.{ℤ}
use job_board.Text.{Text, text_eq}
use job_board.Text.Equality.{text_eq_sound}
use job_board.Domain.Types.{DomainError, Result, ok, err, Job, status_published, Application}
use job_board.Domain.Values.{Platform}
use job_board.Storage.Resume.{Reader, ValidationResult}
use job_board.Service.World.{World, JobRepository, ApplicationRepository}
use job_board.Service.Applications.{
  ApplyInput, Storage, apply_details, new_application, upload_to, persisted, uploaded, submit,
  apply_to, apply,
}

-- A storage by the objects that it holds: an upload that succeeds adds its object, one that fails
-- adds nothing, and a deletion, which must not fail, removes its object. The application repository
-- does not touch them.
pub record IsLawful {S : Type 0} (objects : S → Text → Option Reader) (storage : Storage S)
    (apps : ApplicationRepository S) : Type 0 where
  pub uploads :
      (key : Text) (r : Reader) (size : ℤ) (type : Text) (s t : S)
      → storage.upload key r size type s ≡ (ok tt, t)
      → (other : Text) → objects t other ≡ (if text_eq key other then some r else objects s other)
  pub rejects :
      (key : Text) (r : Reader) (size : ℤ) (type : Text) (s t : S) (e : DomainError)
      → storage.upload key r size type s ≡ (err e, t)
      → (other : Text) → objects t other ≡ objects s other
  pub deletes :
      (key : Text) (s : S) (other : Text)
      → objects (storage.delete key s).1 other
        ≡ (if text_eq key other then none else objects s other)
  pub apart :
      (app : Application) (s : S) (other : Text)
      → objects (apps.create app s).1 other ≡ objects s other

module _ (P : Platform) {S : Type 0} (jobs : JobRepository S) (apps : ApplicationRepository S)
    (storage : Storage S) (webhooks : Bool) (objects : S → Text → Option Reader)
    (law : IsLawful objects storage apps) where
  restored :
      (key other : Text) (r : Reader) (s t : S)
      → objects s key ≡ none
      → objects t other ≡ (if text_eq key other then some r else objects s other)
      → (if text_eq key other then none else objects t other) ≡ objects s other
  restored key other r s t fresh up = elim (Bool-cases (text_eq key other)) [
    | inl same ↦ rw same (sym (ap (objects s) (sym (text_eq_sound key other same)) ∙ fresh))
    | inr apart ↦ rw apart (rw apart at up)
  ]

  persisted-objects :
      (job : Job) (key : Text) (created : Result Application × S) (w w' : World S) (e : DomainError)
      (other : Text)
      → persisted P jobs apps (some storage) webhooks job key created w ≡ (err e, w')
      → objects w'.store other ≡ (if text_eq key other then none else objects (created.1) other)
  persisted-objects job key (ok app, s) w w' e other p = cc
  persisted-objects job key (err x, s) w w' e other p =
      rw (← (ap (λ q. (q.1).store) p)) (law.deletes key s other)

  uploaded-objects :
      (job : Job) (app : Application) (resume : ValidationResult) (stored : Result (Unit {0}) × S)
      (w w' : World S) (e : DomainError) (other : Text)
      → objects w.store app.resume_s3_key ≡ none
      → upload_to (some storage) app.resume_s3_key resume w.store ≡ stored
      → uploaded P jobs apps (some storage) webhooks job app stored w ≡ (err e, w')
      → objects w'.store other ≡ objects w.store other
  uploaded-objects job app resume (err x, s) w w' e other fresh u p =
      rw (← (ap (λ q. (q.1).store) p)) (law.rejects _ _ _ _ w.store s x u other)
  uploaded-objects job app resume (ok tt, s) w w' e other fresh u p =
      let after = persisted-objects job app.resume_s3_key (apps.create app s) w w' e other p in
      let same = law.apart app s other in
      let up = law.uploads _ _ _ _ w.store s u other in
      rw (after, same) (restored app.resume_s3_key other resume.reader w.store s fresh up)

  submit-objects :
      (id : Text) (job : Job) (input : ApplyInput) (checked : Result ValidationResult)
      (w w' : World S) (e : DomainError) (other : Text)
      → ((job : Job) (resume : ValidationResult)
          → objects w.store (new_application P id job input resume).resume_s3_key ≡ none)
      → submit P jobs apps (some storage) webhooks id job input checked w ≡ (err e, w')
      → objects w'.store other ≡ objects w.store other
  submit-objects id job input (err x) w w' e other fresh p =
      ap (λ q. objects (q.1).store other) (sym p)
  submit-objects id job input (ok resume) w w' e other fresh p =
      uploaded-objects job (new_application P id job input resume) resume _ w w' e other
        (fresh job resume) refl p

  apply_to-objects :
      (read_error : DomainError) (id : Text) (input : ApplyInput) (found : Result (Option Job))
      (w w' : World S) (e : DomainError) (other : Text)
      → ((job : Job) (resume : ValidationResult)
          → objects w.store (new_application P id job input resume).resume_s3_key ≡ none)
      → apply_to P jobs apps (some storage) webhooks read_error id input found w ≡ (err e, w')
      → objects w'.store other ≡ objects w.store other
  apply_to-objects read_error id input (err x) w w' e other fresh p =
      ap (λ q. objects (q.1).store other) (sym p)
  apply_to-objects read_error id input (ok none) w w' e other fresh p =
      ap (λ q. objects (q.1).store other) (sym p)
  apply_to-objects read_error id input (ok (some job)) w w' e other fresh p =
      elim (Bool-cases (not (text_eq job.status status_published))) [
        | inl hidden ↦ ap (λ q. objects (q.1).store other) (sym (rw hidden at p))
        | inr shown ↦ elim (Bool-cases (not (is_empty (apply_details P job input)))) [
          | inl rejected ↦ ap (λ q. objects (q.1).store other) (sym (rw (shown, rejected) at p))
          | inr passed ↦ submit-objects id job input _ w w' e other fresh (rw (shown, passed) at p)
        ]
      ]

  -- A call of Apply that fails, wherever it does, leaves the objects of the storage as they were, if
  -- the storage is lawful, which says that a deletion does not fail, and no object stands under a key
  -- with the fresh id.
  pub apply-objects :
      (read_error : DomainError) (id : Text) (input : ApplyInput) (w w' : World S) (e : DomainError)
      (other : Text)
      → ((job : Job) (resume : ValidationResult)
          → objects w.store (new_application P id job input resume).resume_s3_key ≡ none)
      → apply P jobs apps (some storage) webhooks read_error id input w ≡ (err e, w')
      → objects w'.store other ≡ objects w.store other
  unfolding apply
  apply-objects read_error id input w w' e other fresh p =
      apply_to-objects read_error id input _ w w' e other fresh p
