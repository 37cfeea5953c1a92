-- ===== src/Webhook/Counts.antt =====
-- The map `failures` of the dispatcher, from subscription ids to consecutive failures; a missing
-- key reads as 0.
use job_board.Prelude.{ℕ, ◌≡◌, ◌≢◌, List, [], ◌∷◌, arith, if◌then◌else◌}
use job_board.Text.{Text, text_eq}
use job_board.Text.Equality.{text_eq_refl, text_eq_sound}

abbrev pub Counts : Type 0
Counts = List (Text × ℕ)

unfoldable pub get : Counts → Text → ℕ
get [] k = 0
get ((j, n) ∷ m) k = if text_eq j k then n else get m k

unfoldable pub put : Counts → Text → ℕ → Counts
put m k n = (k, n) ∷ m

pub get-put_self : (m : Counts) (k : Text) (n : ℕ) → get (put m k n) k ≡ n
unfolding get put
get-put_self m k n = rw (text_eq_refl k)

pub get-put_ne : (m : Counts) (k j : Text) (n : ℕ) → j ≢ k → get (put m k n) j ≡ get m j
unfolding get put
get-put_ne m k j n h = ground (arith, text_eq_sound k j)
