-- ===== src/Storage/Names/Collapse.antt =====
-- The loop that collapses underscores ends with none left to collapse.
use job_board.Prelude.{
  ℕ, zero, suc, ◌≤◌, ◌<◌, ◌≡◌, refl, true, false, [], ◌∷◌, arith, length, inl, inr, Bool-cases,
}
use job_board.Text.{Text}
use job_board.Storage.Names.{contains_pair, replace_pairs, collapse}

replace_pairs-le : (s : Text) → length (replace_pairs s) ≤ length s
unfolding replace_pairs
replace_pairs-le [] = omega arith
replace_pairs-le (c ∷ []) = omega arith
replace_pairs-le (c ∷ d ∷ s) = ground (arith, replace_pairs-le s, replace_pairs-le (d ∷ s))

replace_pairs-lt : (s : Text) → contains_pair s ≡ true → length (replace_pairs s) < length s
unfolding replace_pairs contains_pair
replace_pairs-lt [] e = cc
replace_pairs-lt (c ∷ []) e = cc
replace_pairs-lt (c ∷ d ∷ s) e = ground (arith, replace_pairs-le s, replace_pairs-lt (d ∷ s))

contains_pair-short : (s : Text) → length s ≤ 0 → contains_pair s ≡ false
unfolding contains_pair
contains_pair-short [] h = refl
contains_pair-short (c ∷ s) h = absurd (omega arith)

-- With as many rounds as the text has characters, or more, no two underscores in a row are left.
contains_pair-collapse :
    (fuel : ℕ) (s : Text) → length s ≤ fuel → contains_pair (collapse fuel s) ≡ false
unfolding collapse
contains_pair-collapse zero s h = contains_pair-short s h
contains_pair-collapse (suc fuel) s h = elim (Bool-cases (contains_pair s)) [
  | inl more ↦
      rw more
        (contains_pair-collapse fuel (replace_pairs s) (omega (arith, replace_pairs-lt s more)))
  | inr done ↦ rw done done
]
