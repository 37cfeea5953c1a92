-- ===== src/Text/Equality.antt =====
-- Comparison of texts is equality, and literals differ where their characters do.
use job_board.Prelude.{false, ◌≢◌, ◌≡◌, refl, ◌↔◌, true, [], ◌∷◌, ◌++◌, arith, is_empty}
use job_board.Text.{Text, txt, text_eq, has_prefix, drop_prefix}

pub text_eq_sound : (s t : Text) → text_eq s t ≡ true → s ≡ t
unfolding text_eq
text_eq_sound [] [] h = refl
text_eq_sound [] (d ∷ t) h = cc
text_eq_sound (c ∷ s) [] h = cc
text_eq_sound (c ∷ s) (d ∷ t) h = ground (arith, text_eq_sound s t)

pub text_eq_refl : (s : Text) → text_eq s s ≡ true
unfolding text_eq
text_eq_refl [] = refl
text_eq_refl (c ∷ s) = ground (arith, text_eq_refl s)

pub text_eq_iff : (s t : Text) → (text_eq s t ≡ true) ↔ (s ≡ t)
text_eq_iff s t = (text_eq_sound s t, λ e. rw e (text_eq_refl t))

pub text_eq-nil : (s : Text) → text_eq s [] ≡ is_empty s
unfolding text_eq
text_eq-nil [] = refl
text_eq-nil (c ∷ s) = refl

-- A prefix taken off and put back.
pub append-drop_prefix : (s pre : Text) → has_prefix s pre ≡ true → pre ++ drop_prefix s pre ≡ s
unfolding has_prefix drop_prefix
append-drop_prefix s [] h = refl
append-drop_prefix [] (d ∷ pre) h = cc
append-drop_prefix (c ∷ s) (d ∷ pre) h = ground (arith, append-drop_prefix s pre)

pub has_prefix-append : (pre s : Text) → has_prefix (pre ++ s) pre ≡ true
unfolding has_prefix
has_prefix-append [] s = refl
has_prefix-append (c ∷ pre) s = ground (arith, has_prefix-append pre s)

-- The test against the empty literal.
pub blank-eq-false : (t : Text) → (text_eq t (txt "") ≡ false) ↔ (t ≢ [])
unfolding text_eq txt
blank-eq-false [] = (λ e. cc, λ n. absurd (n refl))
blank-eq-false (c ∷ t) = ((λ _ p. cc p), λ _. refl)
