-- ===== src/Text/Trim.antt =====
-- Laws of trimming.
use job_board.Prelude.{
  is_empty, if◌then◌else◌, ◌&&◌, ◌++◌, ap, ℕ, ◌≤◌, ◌≡◌, refl, Bool, false, [], ◌∷◌, arith, length,
  All,
}
use job_board.Text.{Text, trim_left, trim_right, trim}

module _ (p : ℕ → Bool) where
  pub length-trim_right-le : (s : Text) → length (trim_right p s) ≤ length s
  unfolding trim_right
  length-trim_right-le [] = omega arith
  length-trim_right-le (c ∷ s) = ground (arith, length-trim_right-le s)

  pub length-trim_left-le : (s : Text) → length (trim_left p s) ≤ length s
  unfolding trim_left
  length-trim_left-le [] = omega arith
  length-trim_left-le (c ∷ s) = ground (arith, length-trim_left-le s)

  -- Where no character is trimmed, nothing is.
  pub trim_of_none : (s : Text) → All (λ c. p c ≡ false) s → trim p s ≡ s
  unfolding trim trim_left trim_right
  trim_of_none [] h = refl
  trim_of_none (c ∷ s) h = rw (h.0) (rw (h.0) (ap (λ t. c ∷ t) (trim_right_of_none s h.1)))
    where
      trim_right_of_none : (s : Text) → All (λ c. p c ≡ false) s → trim_right p s ≡ s
      trim_right_of_none [] h = refl
      trim_right_of_none (c ∷ s) h = rw (h.0) (ap (λ t. c ∷ t) (trim_right_of_none s h.1))

  trim_right_bracketed : (s : Text) (d : ℕ) → p d ≡ false → trim_right p (s ++ d ∷ []) ≡ s ++ d ∷ []
  unfolding trim_right
  trim_right_bracketed [] d h = rw h
  trim_right_bracketed (c ∷ s) d h = rw (trim_right_bracketed s d h) (kept c s)
    where
      kept :
          (c : ℕ) (s : Text)
          → (if p c && is_empty (s ++ d ∷ []) then [] else c ∷ (s ++ d ∷ [])) ≡ c ∷ (s ++ d ∷ [])
      kept c [] = ground arith
      kept c (c' ∷ s) = ground arith

  -- A text between two characters that stay is not trimmed.
  pub trim_bracketed :
      (c : ℕ) (s : Text) (d : ℕ)
      → p c ≡ false
      → p d ≡ false
      → trim p (c ∷ (s ++ d ∷ [])) ≡ c ∷ (s ++ d ∷ [])
  unfolding trim trim_left
  trim_bracketed c s d hc hd = rw hc (trim_right_bracketed (c ∷ s) d hd)
