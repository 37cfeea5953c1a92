-- ===== src/Api/Queries/Bounds.antt =====
-- The page and the limit of a query string.
use job_board.Prelude.{ℕ, ◌≤◌, List, Option, none, some, ltb, arith, inl, inr, Bool-cases}
use job_board.Prelude.Int.{ℤ, pos, negsuc}
use job_board.Text.{Text, txt, text_eq, trim_space}
use job_board.Domain.Types.{ErrorDetail}
use job_board.Api.Queries.{atoi, parse_page, parse_limit, at_least_one, capped}

at_least_one_bounds :
    (field issue : Text) (o : Option ℤ) (default : ℕ)
    → 1 ≤ default
    → 1 ≤ (at_least_one field issue o default).0
at_least_one_bounds field issue none default h = h
at_least_one_bounds field issue (some (negsuc n)) default h = h
at_least_one_bounds field issue (some (pos n)) default h = elim (Bool-cases (ltb n 1)) [
  | inl low ↦ rw low h
  | inr fine ↦ rw fine (ground arith)
]

pub parse_page_bounds : (s : Text) → 1 ≤ (parse_page s).0
unfolding parse_page
parse_page_bounds s = elim (Bool-cases (text_eq (trim_space s) (txt ""))) [
  | inl blank ↦ rw blank (omega arith)
  | inr given ↦ rw given (at_least_one_bounds _ _ (atoi (trim_space s)) 1 (omega arith))
]

capped_bounds : (p : ℕ × List ErrorDetail) → 1 ≤ p.0 → (1 ≤ (capped p).0) × ((capped p).0 ≤ 100)
capped_bounds (n, details) h = elim (Bool-cases (ltb 100 n)) [
  | inl high ↦ rw high (omega arith, omega arith)
  | inr fine ↦ rw fine (h, ground arith)
]

pub parse_limit_bounds : (s : Text) → (1 ≤ (parse_limit s).0) × ((parse_limit s).0 ≤ 100)
unfolding parse_limit
parse_limit_bounds s = elim (Bool-cases (text_eq (trim_space s) (txt ""))) [
  | inl blank ↦ rw blank (omega arith, omega arith)
  | inr given ↦ rw given (
      let parsed =
        at_least_one (txt "limit") (txt "limit must be a positive integer") (atoi (trim_space s))
          20 in
      capped_bounds parsed (at_least_one_bounds _ _ (atoi (trim_space s)) 20 (omega arith)))
]
