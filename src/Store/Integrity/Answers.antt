-- ===== src/Store/Integrity/Answers.antt =====
-- What holds of the rows that a statement answers with, and so of the state after it.
use job_board.Prelude.{
  Option-cases, ◌≡◌, Bool, true, false, Option, none, some, if◌then◌else◌, inl, inr, Bool-cases,
}
use job_board.Text.{Text, txt, text_eq}
use job_board.Domain.Types.{ok}
use job_board.Store.Database.{
  Postgres, Answer, rows, error, failed, with_uuid, without_uuid, with_new_uuid, accepted, affected,
  returning,
}

-- An answer that is an error, or whose rows have the property.
abbrev pub Answered : {A : Type 0} → (A → Type 0) → Answer A → Type 0
Answered Q (rows a) = Q a
Answered Q (error e) = Unit

-- The state that goes with an optional row.
abbrev pub AtRow : {A S : Type 0} → (S → Type 0) → Option (A × S) → Type 0
AtRow P none = Unit
AtRow P (some (a, s)) = P s

abbrev pub AtState : {A S : Type 0} → (S → Type 0) → A × S → Type 0
AtState P (a, s) = P s

module _ {A : Type 0} (Q : A → Type 0) where
  pub Answered-if :
      (c : Bool) (a b : Answer A)
      → (c ≡ true → Answered Q a)
      → (c ≡ false → Answered Q b)
      → Answered Q (if c then a else b)
  Answered-if c a b f g = elim (Bool-cases c) [ inl e ↦ rw e (f e) | inr e ↦ rw e (g e) ]

  pub Answered-accepted :
      (r : Option Text) (a : Answer A) → Answered Q a → Answered Q (accepted r a)
  Answered-accepted none a h = h
  Answered-accepted (some m) a h = tt

  module _ (pg : Postgres) where
    pub Answered-with_uuid :
        (id : Text) (run : Text → Answer A)
        → ((uuid : Text) → Answered Q (run uuid))
        → Answered Q (with_uuid pg id run)
    Answered-with_uuid id run h =
        elim (pg.fault)
          as (λ f. Answered Q (elim f [
            | some message ↦ error (failed message)
            | none ↦ elim (pg.read_uuid id) [
              | none ↦ error (failed (txt "invalid input syntax for type uuid"))
              | some uuid ↦ run uuid
            ]
          ])) [
            | some message ↦ tt
            | none ↦
                elim (pg.read_uuid id)
                  as (λ f. Answered Q (elim f [
                    | none ↦ error (failed (txt "invalid input syntax for type uuid"))
                    | some uuid ↦ run uuid
                  ])) [ none ↦ tt | some uuid ↦ h uuid ]
          ]

    -- The same for the one uuid that `id` is read as.
    pub Answered-with_uuid_of :
        (id : Text) (run : Text → Answer A) (uuid : Text)
        → pg.read_uuid id ≡ some uuid
        → Answered Q (run uuid)
        → Answered Q (with_uuid pg id run)
    Answered-with_uuid_of id run uuid e h =
        elim (pg.fault)
          as (λ f. Answered Q (elim f [
            | some message ↦ error (failed message)
            | none ↦ elim (pg.read_uuid id) [
              | none ↦ error (failed (txt "invalid input syntax for type uuid"))
              | some uuid ↦ run uuid
            ]
          ])) [ some message ↦ tt | none ↦ rw e h ]

    pub Answered-with_uuid_read :
        (id : Text) (run : Text → Answer A)
        → ((uuid : Text) → pg.read_uuid id ≡ some uuid → Answered Q (run uuid))
        → Answered Q (with_uuid pg id run)
    Answered-with_uuid_read id run h = elim (Option-cases (pg.read_uuid id)) [
      | inl bad ↦ elim (Option-cases (pg.fault)) [
        | inl up ↦ rw (up, bad) tt
        | inr (message, down) ↦ rw down tt
      ]
      | inr (uuid, e) ↦ Answered-with_uuid_of id run uuid e (h uuid e)
    ]

    Answered-without_uuid : (a : Answer A) → Answered Q a → Answered Q (without_uuid pg a)
    Answered-without_uuid a h =
        elim (pg.fault)
          as (λ f. Answered Q (elim f [ some message ↦ error (failed message) | none ↦ a ])) [
            | some message ↦ tt
            | none ↦ h
          ]

    pub Answered-with_new_uuid :
        (fresh id : Text) (run : Text → Answer A)
        → ((uuid : Text) → Answered Q (run uuid))
        → Answered Q (with_new_uuid pg fresh id run)
    Answered-with_new_uuid fresh id run h =
        Answered-if (text_eq id (txt "")) (without_uuid pg (run fresh)) (with_uuid pg id run)
          (λ e. Answered-without_uuid (run fresh) (h fresh)) (λ e. Answered-with_uuid id run h)

module _ {S : Type 0} (P : S → Type 0) where
  pub AtState-returning :
      {A : Type 0} (what : Text) (a : Answer (Option (A × S))) (s : S)
      → P s
      → Answered (AtRow P) a
      → AtState P (returning what a s)
  AtState-returning what (rows none) s p h = p
  AtState-returning what (rows (some (row, t))) s p h = h
  AtState-returning what (error e) s p h = p

  pub AtState-affected :
      (what : Text) (a : Answer (Bool × S)) (s : S)
      → P s
      → Answered (AtState P) a
      → AtState P (affected what a s)
  AtState-affected what (rows (true, t)) s p h = h
  AtState-affected what (rows (false, t)) s p h = h
  AtState-affected what (error e) s p h = p

  pub AtState-if :
      {A : Type 0} (c : Bool) (x y : A × S)
      → AtState P x
      → AtState P y
      → AtState P (if c then x else y)
  AtState-if true x y h g = h
  AtState-if false x y h g = g

  pub affected-ok :
      (what : Text) (a : Answer (Bool × S)) (s t : S)
      → affected what a s ≡ (ok tt, t)
      → Answered (AtState P) a
      → P t
  affected-ok what (rows (true, x)) s t e h = let same : x ≡ t = cc in rw (← same) h
  affected-ok what (rows (false, x)) s t e h = cc
  affected-ok what (error x) s t e h = cc

pub without_uuid-rows :
    {A : Type 0} (pg : Postgres) (a : Answer A) {x : A} → without_uuid pg a ≡ rows x → a ≡ rows x
without_uuid-rows pg a e = elim (Option-cases (pg.fault)) [
  | inl up ↦ rw up at e
  | inr (message, down) ↦ cc (rw down at e)
]

-- A success of Exec comes from an answer that affected a row.
pub affected_found :
    {S : Type 0} (Q : Bool → S → Type 0) (what : Text) (a : Answer (Bool × S)) (s t : S)
    → affected what a s ≡ (ok tt, t)
    → Answered (λ (b, x). Q b x) a
    → Q true t
affected_found Q what (rows (true, x)) s t e h = let same : x ≡ t = cc in rw (← same) h
affected_found Q what (rows (false, x)) s t e h = cc
affected_found Q what (error x) s t e h = cc

-- What an answer of one row says of the row and the state after it.
abbrev pub Returned : {A S : Type 0} → (A → S → Type 0) → Option (A × S) → Type 0
Returned Q none = Unit
Returned Q (some (a, s)) = Q a s

pub returning-ok :
    {A S : Type 0} (Q : A → S → Type 0) (what : Text) (a : Answer (Option (A × S))) (s t : S)
    (row : A)
    → returning what a s ≡ (ok row, t)
    → Answered (Returned Q) a
    → Q row t
returning-ok Q what (rows none) s t row e h = cc
returning-ok Q what (rows (some (r, x))) s t row e h =
    let same_row : r ≡ row = cc in let same : x ≡ t = cc in rw (← same_row, ← same) h
returning-ok Q what (error x) s t row e h = cc
