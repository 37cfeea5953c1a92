-- ===== src/Service/Paging.antt =====
-- The page and limit that the list operations of the services pass on.
use job_board.Prelude.{
  ℕ, zero, suc, inl, inr, Bool-cases, ◌≤◌, ◌≡◌, refl, false, if◌then◌else◌, arith, ltb,
}
use job_board.Prelude.Int.{ℤ, pos, negsuc, ltb_ℤ}

-- `if filter.Page < 1 { filter.Page = 1 }`
unfoldable pub page_of : ℤ → ℤ
page_of page = if ltb_ℤ page (pos 1) then pos 1 else page

-- `if filter.Limit < 1 { 20 } else if filter.Limit > 100 { 100 }`
unfoldable pub limit_of : ℤ → ℤ
limit_of limit =
    if ltb_ℤ limit (pos 1) then pos 20 else if ltb_ℤ (pos 100) limit then pos 100 else limit

pub page_of_bounds : (page : ℤ) → (n : ℕ) × (page_of page ≡ pos n) × (1 ≤ n)
unfolding page_of
page_of_bounds (pos zero) = (1, refl, omega arith)
page_of_bounds (pos (suc n)) = (suc n, ground arith, omega arith)
page_of_bounds (negsuc n) = (1, refl, omega arith)

capped_bounds :
    (m : ℕ)
    → 1 ≤ m
    → (n : ℕ) × ((if ltb 100 m then pos 100 else pos m) ≡ pos n) × (1 ≤ n) × (n ≤ 100)
capped_bounds m h = elim (Bool-cases (ltb 100 m)) [
  | inl above ↦ (100, rw (above) refl, omega arith, omega arith)
  | inr not_above ↦ (m, rw (not_above) refl, h, ground arith)
]

pub limit_of_bounds : (limit : ℤ) → (n : ℕ) × (limit_of limit ≡ pos n) × (1 ≤ n) × (n ≤ 100)
unfolding limit_of
limit_of_bounds (pos zero) = (20, refl, omega arith, omega arith)
limit_of_bounds (pos (suc n)) =
    let positive : ltb (suc n) 1 ≡ false = ground arith in
    rw positive (capped_bounds (suc n) (omega arith))
limit_of_bounds (negsuc n) = (20, refl, omega arith, omega arith)
