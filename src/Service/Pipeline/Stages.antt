-- ===== src/Service/Pipeline/Stages.antt =====
-- What a call of UpdateStage leads to.
use job_board.Prelude.{
  ℕ, Bool, ◌∙◌, arith, ◌≡◌, refl, ◌≢◌, ◌⊎◌, sym, ap, true, false, not, List, [], ◌∷◌, Option, none,
  some, inl, inr, Bool-cases, is_empty,
}
use job_board.Text.{Text, text_eq}
use job_board.Text.Equality.{text_eq_sound, text_eq_refl}
use job_board.Domain.Types.{
  Result, ok, err, Time, Application, ApplicationStage, stage_rejected,
  event_application_stage_updated, event_application_rejected,
}
use job_board.Domain.Requests.{validate_stage_update}
use job_board.Service.World.{
  World, Event, Told, told, untold, stage_updated, rejected, ApplicationRepository, NoteRepository,
}
use job_board.Service.Pipeline.{
  notes_count, is_new_reason, emit_stage, moved_to, update_found, update_stage,
}
use job_board.Service.Jobs.Created.{is_empty_sound}

abbrev pub moved_event : Application → ApplicationStage → ℕ → Event
moved_event app stage count = record {
  topic = event_application_stage_updated;
  payload = stage_updated app.id app.job_id app.stage stage count;
}

abbrev pub rejected_event : Application → Option Text → Event
rejected_event app reason = record {
  topic = event_application_rejected;
  payload = rejected app.id reason;
}

-- The events of a change from `app` to a stage with a reason: a move, a move to rejected, which has
-- two, a new reason for a rejection, or nothing new.
pub data Reports (app : Application) (stage : ApplicationStage) (reason : Option Text) (count : ℕ)
    (events : List Event) : List Event → Type 0 where
  moves :
      app.stage ≢ stage
      → stage ≢ stage_rejected
      → Reports app stage reason count events (moved_event app stage count ∷ events)
  moves_to_rejected :
      app.stage ≢ stage
      → stage ≡ stage_rejected
      → Reports app stage reason count events
          (rejected_event app reason ∷ moved_event app stage count ∷ events)
  gives_new_reason :
      app.stage ≡ stage
      → stage ≡ stage_rejected
      → reason ≢ none
      → app.rejected_reason ≢ reason
      → Reports app stage reason count events (rejected_event app reason ∷ events)
  stays :
      app.stage ≡ stage
      → (stage ≢ stage_rejected) ⊎ ((reason ≡ none) ⊎ (app.rejected_reason ≡ reason))
      → Reports app stage reason count events events

text_eq-false : (s t : Text) → text_eq s t ≡ false → s ≢ t
text_eq-false s t e p = let same : text_eq s t ≡ true = rw p (text_eq_refl t) in cc (e, same)

module _ {S : Type 0} (apps : ApplicationRepository S) (notes : Option (NoteRepository S))
    (webhooks : Bool) where
  new_reason-true :
      (old new : Option Text)
      → is_new_reason apps notes true old new ≡ true
      → (new ≢ none) × (old ≢ new)
  new_reason-true old none e = cc
  new_reason-true none (some new) e = (λ p. cc p, λ p. cc p)
  new_reason-true (some old) (some new) e = (
    λ p. cc p,
    λ p.
        let same : old ≡ new = cc p in
        let reflexive : text_eq old new ≡ true = rw same (text_eq_refl new) in
        cc (rw reflexive at e),
  )

  new_reason-false :
      (old new : Option Text)
      → is_new_reason apps notes true old new ≡ false
      → (new ≡ none) ⊎ (old ≡ new)
  new_reason-false old none e = inl refl
  new_reason-false none (some new) e = cc
  new_reason-false (some old) (some new) e = elim (Bool-cases (text_eq old new)) [
    | inl same ↦ inr (ap (λ r. some r) (text_eq_sound old new same))
    | inr differs ↦ cc (rw differs at e)
  ]

  emit_stage-Reports :
      (id : Text) (app : Application) (stage : ApplicationStage) (reason : Option Text)
      (w : World S)
      → Reports app stage reason
          (notes_count apps notes true id w.store)
          w.events
          (emit_stage apps notes true id app stage reason w).events
  unfolding emit_stage
  emit_stage-Reports id app stage reason w = elim (Bool-cases (text_eq app.stage stage)) [
    | inr differs ↦ elim (Bool-cases (text_eq stage stage_rejected)) [
      | inl rejects ↦ rw differs (
          rw rejects (
            moves_to_rejected (text_eq-false _ _ differs)
              (text_eq_sound stage stage_rejected rejects)))
      | inr other ↦
          rw differs (rw other (moves (text_eq-false _ _ differs) (text_eq-false _ _ other)))
    ]
    | inl same ↦
        let kept = text_eq_sound app.stage stage same in
        elim (Bool-cases (text_eq stage stage_rejected)) [
          | inr other ↦ rw same (rw other (stays kept (inl (text_eq-false _ _ other))))
          | inl rejects ↦
              elim (Bool-cases (is_new_reason apps notes true app.rejected_reason reason)) [
                | inl new ↦
                    let change = new_reason-true app.rejected_reason reason new in
                    rw same (
                      rw (rejects, new)
                        (gives_new_reason kept (text_eq_sound stage stage_rejected rejects) change.0
                          change.1))
                | inr old ↦ rw same (
                    rw (rejects, old)
                      (stays kept (inr (new_reason-false app.rejected_reason reason old))))
              ]
        ]
  ]

  -- Everything that a call of UpdateStage that succeeds has found and done.
  pub record IsMoved (now : Time) (id : Text) (stage : ApplicationStage) (reason : Option Text)
      (w : World S) (app : Application) (w' : World S) : Type 0 where
    pub before : Application
    pub found : apps.get_by_id id w.store ≡ ok (some before)
    pub checked : validate_stage_update stage reason ≡ []
    pub stored : apps.update_stage id stage reason w.store ≡ (ok tt, w'.store)
    pub result : app ≡ record before { stage = stage; rejected_reason = reason; updated_at = now }
    pub events :
        Told webhooks
          (Reports before stage reason (notes_count apps notes webhooks id w'.store))
          w.events
          w'.events

  emit_stage_off :
      (id : Text) (app : Application) (stage : ApplicationStage) (reason : Option Text)
      (w : World S)
      → (emit_stage apps notes false id app stage reason w).events ≡ w.events
  unfolding emit_stage
  emit_stage_off id app stage reason w = ground arith

  emit_stage-Told :
      (id : Text) (app : Application) (stage : ApplicationStage) (reason : Option Text)
      (w : World S)
      → Told webhooks
          (Reports app stage reason (notes_count apps notes webhooks id w.store))
          w.events
          (emit_stage apps notes webhooks id app stage reason w).events
  emit_stage-Told id app stage reason w = elim (Bool-cases webhooks) [
    | inl on ↦ rw on (told refl (emit_stage-Reports id app stage reason w))
    | inr off ↦ rw off (untold refl (emit_stage_off id app stage reason w))
  ]

  emit_stage-store :
      (id : Text) (app : Application) (stage : ApplicationStage) (reason : Option Text)
      (w : World S)
      → (emit_stage apps notes webhooks id app stage reason w).store ≡ w.store
  unfolding emit_stage
  emit_stage-store id app stage reason w = ground arith

  moved :
      (now : Time) (id : Text) (stage : ApplicationStage) (reason : Option Text)
      (before : Application) (updated : Result (Unit {0}) × S) (w w' : World S) (app : Application)
      → apps.get_by_id id w.store ≡ ok (some before)
      → validate_stage_update stage reason ≡ []
      → apps.update_stage id stage reason w.store ≡ updated
      → moved_to apps notes webhooks now id stage reason before updated w ≡ (ok app, w')
      → IsMoved now id stage reason w app w'
  moved now id stage reason before (err x, s) w w' app f c u e = cc
  moved now id stage reason before (ok tt, s) w w' app f c u e =
      let stored = record w { store = s } in
      let same_store : s ≡ w'.store =
        sym (emit_stage-store id before stage reason stored) ∙ ap (λ p. (p.1).store) e in
      record {
        before = before;
        found = f;
        checked = c;
        stored = rw (← same_store) u;
        result = cc (sym e);
        events =
            rw (← same_store, ← (ap (λ p. (p.1).events) e))
              (emit_stage-Told id before stage reason stored);
      }

  update_found-IsMoved :
      (now : Time) (id : Text) (stage : ApplicationStage) (reason : Option Text)
      (found : Result (Option Application)) (w w' : World S) (app : Application)
      → apps.get_by_id id w.store ≡ found
      → update_found apps notes webhooks now id stage reason found w ≡ (ok app, w')
      → IsMoved now id stage reason w app w'
  update_found-IsMoved now id stage reason (err x) w w' app f e = cc
  update_found-IsMoved now id stage reason (ok none) w w' app f e = cc
  update_found-IsMoved now id stage reason (ok (some before)) w w' app f e =
      elim (Bool-cases (not (is_empty (validate_stage_update stage reason)))) [
        | inl refused ↦ cc (rw refused at e)
        | inr passed ↦
            moved now id stage reason before _ w w' app f (is_empty_sound _ passed) refl
              (rw passed at e)
      ]

  -- A call of UpdateStage that succeeds found the application, checked the stage and the reason,
  -- stored them, and gives the application with them. Where there is a webhook service, it announced
  -- the change and nothing else: a move, a move to rejected with its reason, or a new reason; where
  -- there is none, it announced nothing.
  pub update_stage-IsMoved :
      (now : Time) (id : Text) (stage : ApplicationStage) (reason : Option Text) (w w' : World S)
      (app : Application)
      → update_stage apps notes webhooks now id stage reason w ≡ (ok app, w')
      → IsMoved now id stage reason w app w'
  unfolding update_stage
  update_stage-IsMoved now id stage reason w w' app e =
      update_found-IsMoved now id stage reason (apps.get_by_id id w.store) w w' app refl e
