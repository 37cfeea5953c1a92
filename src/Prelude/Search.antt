-- ===== src/Prelude/Search.antt =====
-- Searching a list whose members are filtered.
use mathlib.Core.Path.{◌≡◌, refl, ap}
use mathlib.Core.Bool.{Bool, true, false, not}
use mathlib.Core.Option.{none, some}
use mathlib.Core.Logic.{inl, inr}
use mathlib.Core.List.{List, [], ◌∷◌}
use native.Mathlib.Omega.{arith}
use job_board.Prelude.Tests.{Bool-cases}
use job_board.Prelude.Lists.{filter, find, any, All}

pub any-filter-not :
    {A : Type 0} (p : A → Bool) (xs : List A) → any p (filter (λ x. not (p x)) xs) ≡ false
any-filter-not p [] = refl
any-filter-not p (x ∷ xs) = ground (arith, any-filter-not p xs)

pub find-filter-not :
    {A : Type 0} (p q : A → Bool) (xs : List A)
    → ((x : A) → p x ≡ true → q x ≡ false)
    → find p (filter (λ x. not (q x)) xs) ≡ find p xs
find-filter-not p q [] f = refl
find-filter-not p q (x ∷ xs) f = ground (arith, find-filter-not p q xs f, f x)

pub find-filter_kept :
    {A : Type 0} (p q : A → Bool) (xs : List A) {x : A}
    → find p xs ≡ some x
    → q x ≡ true
    → find p (filter q xs) ≡ some x
find-filter_kept p q [] e k = cc
find-filter_kept p q (y ∷ ys) {x} e k = elim (Bool-cases (p y)) [
  | inl here ↦
      let same : y ≡ x = cc (rw here at e) in
      let keep : q y ≡ true = rw same k in rw (keep, here) (ap some same)
  | inr there ↦
      let rest = find-filter_kept p q ys (rw there at e) k in
      elim (Bool-cases (q y)) [ inl keep ↦ rw keep (rw there rest) | inr skip ↦ rw skip rest ]
]

pub find-none : {A : Type 0} (p : A → Bool) (xs : List A) → any p xs ≡ false → find p xs ≡ none
find-none p [] e = refl
find-none p (x ∷ xs) e = ground (arith, find-none p xs)

pub All-of_any-not :
    {A : Type 0} (p : A → Bool) (xs : List A)
    → any (λ x. not (p x)) xs ≡ false
    → All (λ x. p x ≡ true) xs
All-of_any-not p [] e = tt
All-of_any-not p (x ∷ xs) e = (ground arith, All-of_any-not p xs (ground arith))

pub any-not-filter :
    {A : Type 0} (p : A → Bool) (xs : List A) → any (λ x. not (p x)) (filter p xs) ≡ false
any-not-filter p [] = refl
any-not-filter p (x ∷ xs) = ground (arith, any-not-filter p xs)
