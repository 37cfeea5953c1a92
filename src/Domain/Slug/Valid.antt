-- ===== src/Domain/Slug/Valid.antt =====
-- Whatever the title, the slug that `generate_slug` makes of it is valid.
use job_board.Prelude.{
  ℕ, ◌≤◌, ◌≡◌, refl, ◌≢◌, ◌⊎◌, inl, inr, Bool, true, false, [], ◌∷◌, ◌++◌, arith, length, ◌∙◌,
  length-take-le, is_empty, take, not, ◌&&◌, if◌then◌else◌, ltb, Bool-cases,
}
use job_board.Text.{Text, txt, text_eq, len, trim, trim_left, trim_right, to_lower, trim_space}
use job_board.Text.Trim.{length-trim_right-le}
use job_board.Domain.Slug.{
  State, start, word, hyphen, dead, next, run, is_hyphen, is_slug_char, matches_slug, is_valid_slug,
  slug_loop, finish_slug, generate_slug,
}
use job_board.Domain.Slug.Automaton.{run-append, run-take, run-trim_right, len-run, next-live}

-- What the loop keeps of the builder and the flag.
pub data Built : Text → Bool → Type 0 where
  empty : {b : Text} {flag : Bool} → b ≡ [] → flag ≡ false → Built b flag
  in_word : {b : Text} {flag : Bool} → run start b ≡ word → flag ≡ false → Built b flag
  after_hyphen : {b : Text} {flag : Bool} → run start b ≡ hyphen → flag ≡ true → Built b flag

Built-live : {b : Text} {flag : Bool} → Built b flag → run start b ≢ dead
unfolding run
Built-live (empty e f) = rw e (λ p. cc)
Built-live (in_word e f) = rw e (λ p. cc)
Built-live (after_hyphen e f) = rw e (λ p. cc)

next-slug_char : (q : State) (c : ℕ) → q ≢ dead → is_slug_char c ≡ true → next q c ≡ word
unfolding next
next-slug_char start c h e = rw e
next-slug_char word c h e = rw e
next-slug_char hyphen c h e = rw e
next-slug_char dead c h e = absurd (h refl)

pub Built-copy :
    {b : Text} {flag : Bool} (r : ℕ)
    → Built b flag
    → is_slug_char r ≡ true
    → Built (b ++ r ∷ []) false
Built-copy {b} r h e =
    in_word (run-append start b (r ∷ []) ∙ (unfold run in next-slug_char _ r (Built-live h) e)) refl

pub Built-hyphen :
    {b : Text} {flag : Bool}
    → Built b flag
    → (not flag && not (is_empty b)) ≡ true
    → Built (b ++ b'-' ∷ []) true
Built-hyphen (empty e f) h = absurd (ground arith)
Built-hyphen {b} (in_word e f) h =
    after_hyphen (run-append start b (b'-' ∷ []) ∙ rw e (unfold run next is_slug_char in refl)) refl
Built-hyphen (after_hyphen e f) h = absurd (ground arith)

slug_loop-live :
    (b : Text) (flag : Bool) (s : Text) → Built b flag → run start (slug_loop b flag s) ≢ dead
unfolding slug_loop
slug_loop-live b flag [] h = Built-live h
slug_loop-live b flag (r ∷ rest) h = elim (Bool-cases (is_slug_char r)) [
  | inl copied ↦ rw copied (slug_loop-live _ false rest (Built-copy r h copied))
  | inr other ↦ elim (Bool-cases (not flag && not (is_empty b))) [
    | inl hyphened ↦ rw (other, hyphened) (slug_loop-live _ true rest (Built-hyphen h hyphened))
    | inr skipped ↦ rw (other, skipped) (slug_loop-live b flag rest h)
  ]
]

-- A live text does not begin with a hyphen.
head-live : (c : ℕ) (s : Text) → run start (c ∷ s) ≢ dead → is_hyphen c ≡ false
unfolding next is_slug_char run
head-live c s h = ground (arith, next-live start c s h)

pub trim_left-live : (s : Text) → run start s ≢ dead → trim_left is_hyphen s ≡ s
unfolding trim_left
trim_left-live [] h = refl
trim_left-live (c ∷ s) h = rw (head-live c s h)

trim_right-ne-nil : (s : Text) → run start s ≢ dead → s ≢ [] → trim_right is_hyphen s ≢ []
unfolding trim_right
trim_right-ne-nil [] h e = e
trim_right-ne-nil (c ∷ s) h e = rw (head-live c s h) (λ p. cc)

pub is_valid_slug_of_run : (s : Text) → run start s ≡ word → length s ≤ 255 → is_valid_slug s ≡ true
unfolding is_valid_slug matches_slug
is_valid_slug_of_run [] e le = absurd (unfold run in cc e)
is_valid_slug_of_run (c ∷ s) e le =
    let bytes = len-run start (c ∷ s) (λ p. cc (e, p)) in rw e (ground arith)

-- A long slug is cut to 255 bytes, and a hyphen that the cut leaves at the end goes.
cut_valid :
    (t : Text) → run start t ≡ word → is_valid_slug (trim_right is_hyphen (take 255 t)) ≡ true
cut_valid [] e = absurd (unfold run in cc e)
cut_valid (c ∷ t) e =
    let live = run-take 255 start (c ∷ t) (λ p. cc (e, p)) in
    elim (run-trim_right start (take 255 (c ∷ t)) live) [
      | inl ends ↦ is_valid_slug_of_run _ ends (
          omega
            (arith, length-trim_right-le is_hyphen (take 255 (c ∷ t)), length-take-le 255 (c ∷ t)))
      | inr gone ↦ absurd (trim_right-ne-nil (take 255 (c ∷ t)) live (λ p. cc) gone)
    ]

-- The last steps, on a text whose hyphens at both ends are gone.
finish_trimmed :
    (t : Text)
    → (run start t ≡ word) ⊎ (t ≡ [])
    → is_valid_slug (
        if text_eq t (txt "")
        then txt "job"
        else if ltb 255 (len t)
        then trim_right is_hyphen (take 255 t)
        else t)
      ≡ true
unfolding txt text_eq
finish_trimmed [] h = unfold is_valid_slug matches_slug len is_slug_char in refl
finish_trimmed (c ∷ t) (inr e) = cc
finish_trimmed (c ∷ t) (inl e) = elim (Bool-cases (ltb 255 (len (c ∷ t)))) [
  | inl long ↦ rw long (cut_valid (c ∷ t) e)
  | inr short ↦
      rw short
        (is_valid_slug_of_run (c ∷ t) e (ground (arith, len-run start (c ∷ t) (λ p. cc (e, p)))))
]

finish_slug-IsValid : (b : Text) → run start b ≢ dead → is_valid_slug (finish_slug b) ≡ true
unfolding finish_slug trim
finish_slug-IsValid b h =
    rw (trim_left-live b h) (finish_trimmed (trim_right is_hyphen b) (run-trim_right start b h))

-- Whatever the title and the case table, the generated slug passes IsValidSlug.
pub is_valid_slug-generate_slug :
    (upper : ℕ → ℕ) (title : Text) → is_valid_slug (generate_slug upper title) ≡ true
unfolding generate_slug
is_valid_slug-generate_slug upper title =
    finish_slug-IsValid _
      (slug_loop-live [] false (to_lower upper (trim_space title)) (empty refl refl))
