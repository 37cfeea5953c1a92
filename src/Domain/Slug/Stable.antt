-- ===== src/Domain/Slug/Stable.antt =====
-- A slug that is valid already is generated from itself, whatever the case table.
use job_board.Prelude.{
  ℕ, ◌≤◌, ◌≡◌, refl, ◌≢◌, inl, inr, Bool, true, false, [], ◌∷◌, ◌++◌, arith, ◌∙◌, is_empty, not,
  ◌&&◌, ◌||◌, if◌then◌else◌, ltb, Bool-cases, All, ap, append_assoc, append-nil, ◌≡⟨◌⟩◌, ◌∎,
}
use job_board.Text.{
  Text, txt, text_eq, len, is_space, trim, trim_right, ascii_lower, to_lower, trim_space,
}
use job_board.Text.Trim.{trim_of_none}
use job_board.Domain.Slug.{
  State, start, word, hyphen, dead, next, run, is_hyphen, is_slug_char, matches_slug, is_valid_slug,
  slug_loop, finish_slug, generate_slug,
}
use job_board.Domain.Slug.Automaton.{run-append, next-live, next-word}
use job_board.Domain.Slug.Valid.{
  Built, empty, in_word, after_hyphen, Built-copy, Built-hyphen, trim_left-live,
}

abbrev Allowed : ℕ → Type 0
Allowed c = (is_slug_char c || is_hyphen c) ≡ true

next-Allowed : (q : State) (c : ℕ) → next q c ≢ dead → Allowed c
unfolding next
next-Allowed start c h = ground arith
next-Allowed word c h = ground arith
next-Allowed hyphen c h = ground arith
next-Allowed dead c h = absurd (h refl)

run-Allowed : (q : State) (s : Text) → run q s ≢ dead → All Allowed s
unfolding run
run-Allowed q [] h = tt
run-Allowed q (c ∷ s) h = (next-Allowed q c (next-live q c s h), run-Allowed (next q c) s h)

Allowed-is_space : (c : ℕ) → Allowed c → is_space c ≡ false
unfolding is_space is_slug_char
Allowed-is_space c h = ground arith

All-is_space : (s : Text) → All Allowed s → All (λ c. is_space c ≡ false) s
All-is_space [] h = tt
All-is_space (c ∷ s) h = (Allowed-is_space c h.0, All-is_space s h.1)

lower-Allowed :
    (upper : ℕ → ℕ) (c : ℕ) → Allowed c → (if ltb c 128 then ascii_lower c else upper c) ≡ c
unfolding ascii_lower is_slug_char
lower-Allowed upper c h = ground arith

to_lower-Allowed : (upper : ℕ → ℕ) (s : Text) → All Allowed s → to_lower upper s ≡ s
unfolding to_lower
to_lower-Allowed upper [] h = refl
to_lower-Allowed upper (c ∷ s) h = cc (lower-Allowed upper c h.0, to_lower-Allowed upper s h.1)

next-hyphen : (q : State) (c : ℕ) → next q c ≢ dead → is_slug_char c ≡ false → q ≡ word
unfolding next
next-hyphen start c h e = ground arith
next-hyphen word c h e = refl
next-hyphen hyphen c h e = ground arith
next-hyphen dead c h e = absurd (h refl)

next-is_hyphen : (c : ℕ) → next word c ≢ dead → is_slug_char c ≡ false → c ≡ b'-'
unfolding next
next-is_hyphen c h e = ground arith

-- Inside a word the loop may write a hyphen.
hyphen_allowed :
    (b : Text) {flag : Bool}
    → Built b flag
    → run start b ≡ word
    → (not flag && not (is_empty b)) ≡ true
unfolding run
hyphen_allowed [] h e = cc
hyphen_allowed (c ∷ b) (empty n f) e = cc
hyphen_allowed (c ∷ b) (in_word w f) e = rw f
hyphen_allowed (c ∷ b) (after_hyphen w f) e = cc

-- The loop copies a live text.
slug_loop-live_text :
    (b : Text) (flag : Bool) (s : Text)
    → Built b flag
    → run (run start b) s ≢ dead
    → slug_loop b flag s ≡ b ++ s
unfolding slug_loop
slug_loop-live_text b flag [] h live = rw append-nil
slug_loop-live_text b flag (c ∷ s) h live = elim (Bool-cases (is_slug_char c)) [
  | inl copied ↦ rw copied (
      slug_loop-live_text (b ++ c ∷ []) false s (Built-copy c h copied)
        (rw run-append (unfold run in live))
      ∙ append_assoc b (c ∷ []) s)
  | inr other ↦
      let here = next-live (run start b) c s (unfold run in live) in
      let at_word = next-hyphen (run start b) c here other in
      let dash = next-is_hyphen c (rw at_word at here) other in
      let rest : run (next (run start b) c) s ≢ dead = unfold run in live in
      let rest' : run (next (run start b) b'-') s ≢ dead = rw (← dash) rest in
      let ready = hyphen_allowed b h at_word in
      rw (other, ready)
        (slug_loop-live_text (b ++ b'-' ∷ []) true s (Built-hyphen h ready)
            (rw run-append (unfold run in rest'))
          ∙ append_assoc b (b'-' ∷ []) s
          ∙ rw dash)
]

trim_right-word : (q : State) (s : Text) → run q s ≡ word → trim_right is_hyphen s ≡ s
unfolding trim_right run
trim_right-word q [] h = refl
trim_right-word q (c ∷ []) h = rw (next-word q c h)
trim_right-word q (c ∷ d ∷ s) h = rw (trim_right-word (next q c) (d ∷ s) h) (ground arith)

is_valid_slug-run : (s : Text) → is_valid_slug s ≡ true → (run start s ≡ word) × (len s ≤ 255)
unfolding is_valid_slug matches_slug
is_valid_slug-run s h = ground arith

finish_slug-word : (s : Text) → run start s ≡ word → len s ≤ 255 → finish_slug s ≡ s
unfolding finish_slug trim text_eq txt
finish_slug-word [] e le = absurd (unfold run in cc e)
finish_slug-word (c ∷ s) e le =
    rw (trim_left-live (c ∷ s) (λ p. cc (e, p)))
      (rw (trim_right-word start (c ∷ s) e) (ground arith))

-- A valid slug is its own generated slug.
pub generate_slug-fixed :
    (upper : ℕ → ℕ) (s : Text) → is_valid_slug s ≡ true → generate_slug upper s ≡ s
unfolding generate_slug trim_space
generate_slug-fixed upper s h =
    let (at_word, short) = is_valid_slug-run s h in
    let live : run start s ≢ dead = λ p. cc (at_word, p) in
    let plain = run-Allowed start s live in
    generate_slug upper s
    ≡⟨ ap (λ t. finish_slug (slug_loop [] false (to_lower upper t)))
        (trim_of_none is_space s (All-is_space s plain)) ⟩
      finish_slug (slug_loop [] false (to_lower upper s))
    ≡⟨ ap (λ t. finish_slug (slug_loop [] false t)) (to_lower-Allowed upper s plain) ⟩
      finish_slug (slug_loop [] false s)
    ≡⟨ ap finish_slug (slug_loop-live_text [] false s (empty refl refl) (unfold run in live)) ⟩
      finish_slug s
    ≡⟨ finish_slug-word s at_word short ⟩ s ∎
