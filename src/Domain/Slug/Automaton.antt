-- ===== src/Domain/Slug/Automaton.antt =====
-- What a run of the slug automaton says of a text, and how a run goes through `++`, cuts and trims.
use job_board.Prelude.{
  ℕ, zero, suc, ◌≡◌, refl, ◌≢◌, ◌⊎◌, inr, false, [], ◌∷◌, ◌++◌, arith, length, is_empty, take, ◌&&◌,
  if◌then◌else◌,
}
use job_board.Text.{Text, len, trim_right, utf8_width}
use job_board.Domain.Slug.{State, start, word, hyphen, dead, next, run, is_hyphen}

pub State-discrete : Discrete State
State-discrete = hlevel

pub run-append : (q : State) (s t : Text) → run q (s ++ t) ≡ run (run q s) t
unfolding run
run-append q [] t = refl
run-append q (c ∷ s) t = run-append (next q c) s t

pub run-dead : (s : Text) → run dead s ≡ dead
unfolding run next
run-dead [] = refl
run-dead (c ∷ s) = run-dead s

pub next-live : (q : State) (c : ℕ) (s : Text) → run (next q c) s ≢ dead → next q c ≢ dead
unfolding run
next-live q c s h e = h (rw e (run-dead s))

-- The characters of a live text take one byte each.
width-next : (q : State) (c : ℕ) → next q c ≢ dead → utf8_width c ≡ 1
unfolding next utf8_width
width-next start c h = ground arith
width-next word c h = ground arith
width-next hyphen c h = ground arith
width-next dead c h = absurd (h refl)

pub len-run : (q : State) (s : Text) → run q s ≢ dead → len s ≡ length s
unfolding run len
len-run q [] h = refl
len-run q (c ∷ s) h = omega (arith, len-run (next q c) s h, width-next q c (next-live q c s h))

-- A prefix of a live text is live.
pub run-take : (n : ℕ) (q : State) (s : Text) → run q s ≢ dead → run q (take n s) ≢ dead
unfolding run
run-take zero q s h = λ e. h (rw e (run-dead s))
run-take (suc n) q [] h = h
run-take (suc n) q (c ∷ s) h = run-take n (next q c) s h

next-eq-word : (q : State) (c : ℕ) → next q c ≢ dead → is_hyphen c ≡ false → next q c ≡ word
unfolding next
next-eq-word start c h e = ground arith
next-eq-word word c h e = ground arith
next-eq-word hyphen c h e = ground arith
next-eq-word dead c h e = absurd (h refl)

pub next-word : (q : State) (c : ℕ) → next q c ≡ word → is_hyphen c ≡ false
unfolding next
next-word start c e = ground arith
next-word word c e = ground arith
next-word hyphen c e = ground arith
next-word dead c e = cc

run-trim_step :
    (q : State) (c : ℕ) (t : Text)
    → (run (next q c) t ≡ word) ⊎ (t ≡ [])
    → next q c ≢ dead
    → let kept = if is_hyphen c && is_empty t then [] else c ∷ t in
      (run q kept ≡ word) ⊎ (kept ≡ [])
unfolding run
run-trim_step q c [] h live = ground (arith, next-eq-word q c, next-word q c)
run-trim_step q c (d ∷ t) h live = ground arith

-- Trimming hyphens at the end of a live text leaves nothing or a text that ends a word.
pub run-trim_right :
    (q : State) (s : Text)
    → run q s ≢ dead
    → (run q (trim_right is_hyphen s) ≡ word) ⊎ (trim_right is_hyphen s ≡ [])
unfolding trim_right run
run-trim_right q [] h = inr refl
run-trim_right q (c ∷ s) h =
    run-trim_step q c (trim_right is_hyphen s) (run-trim_right (next q c) s h) (next-live q c s h)
