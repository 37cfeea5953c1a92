-- ===== src/Text/Decimal.antt =====
-- The decimal digits of a number, as `%d` prints it.
use job_board.Prelude.{ℕ, zero, suc, ◌+◌, ◌/◌, ◌%◌, [], ◌∷◌, ltb, if◌then◌else◌}
use job_board.Text.{Text}

-- A number has at most as many digits as its value and one more, so `suc n` rounds are enough.
digits_from : ℕ → ℕ → Text → Text
digits_from zero n acc = acc
digits_from (suc fuel) n acc =
    let acc' = (48 + n % 10) ∷ acc in
    let rest = digits_from fuel (n / 10) acc' in if ltb n 10 then acc' else rest

unfoldable pub itoa : ℕ → Text
unfolding digits_from
itoa n = digits_from (suc n) n []
