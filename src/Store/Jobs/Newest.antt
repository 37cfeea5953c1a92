-- ===== src/Store/Jobs/Newest.antt =====
-- What ORDER BY created_at DESC settles: rows of different times have one order.
use mathlib.Core.List.{Mem, Perm, mem-cons, mem-cons_self, not-mem-nil, perm-cons}
use mathlib.Core.List.Perm
use mathlib.Core.List.{Permᴰ}
use mathlib.Core.Logic.{∥∥₁_elim}
use mathlib.Core.Logic.Or
use native.Mathlib.Bridge.{le_prop}
use job_board.Prelude.{ℕ, suc, ◌≤◌, ◌<◌, ◌≡◌, refl, ap, ◌∙◌, List, [], ◌∷◌, All, length, arith}

length-Permᴰ {ℓ} : {A : Type ℓ} {xs ys : List A} → Permᴰ xs ys → length xs ≡ length ys
length-Permᴰ Permᴰ.nil = refl
length-Permᴰ (Permᴰ.cons e d) = ap suc (length-Permᴰ d)
length-Permᴰ (Permᴰ.swap e f) = refl
length-Permᴰ (Permᴰ.trans d e) = length-Permᴰ d ∙ length-Permᴰ e

pub length_le_of_Perm {ℓ} :
    {A : Type ℓ} (xs ys : List A) (n : ℕ) → Perm xs ys → length ys ≤ n → length xs ≤ n
length_le_of_Perm xs ys n p h = ∥∥₁_elim p le_prop (λ d. omega (arith, length-Permᴰ d, h))

module _ {ℓ} {A : Type ℓ} (time : A → ℕ) where
  -- From the newest to the oldest, no two of the same time.
  abbrev pub NewestFirst : List A → Type 0
  NewestFirst [] = Unit
  NewestFirst (x ∷ xs) = All (λ y. time y < time x) xs × NewestFirst xs

  older : (x y : A) (xs : List A) → All (λ z. time z < time x) xs → Mem y xs → time y < time x
  older x y [] h m = absurd (not-mem-nil m)
  older x y (z ∷ zs) (p, h) m =
      Or.elim le_prop (mem-cons.0 m) (λ e. rw e p) (λ below. older x y zs h below)

  not_older : (x y : A) (ys : List A) → NewestFirst (y ∷ ys) → Mem x (y ∷ ys) → time x ≤ time y
  not_older x y ys (h, s) m =
      Or.elim le_prop (mem-cons.0 m) (λ e. rw e (omega arith))
        (λ below. let less = older y x ys h below in omega arith)

  same_head :
      IsSet A
      → (x y : A) (ys : List A) → NewestFirst (y ∷ ys)
      → Mem x (y ∷ ys)
      → time y ≤ time x
      → x ≡ y
  same_head set x y ys (h, s) m later =
      Or.elim (set x y) (mem-cons.0 m) (λ e. e)
        (λ below. let less = older y x ys h below in absurd (omega arith))

  -- Two lists of the same elements, both from the newest to the oldest, are one list.
  pub newest_unique :
      IsSet A → (xs ys : List A) → NewestFirst xs → NewestFirst ys → Perm xs ys → xs ≡ ys
  newest_unique set [] ys s t p = Perm.nil-eq p
  newest_unique set (x ∷ xs) [] s t p = absurd (not-mem-nil ((Perm.mem_iff p).0 mem-cons_self))
  newest_unique set (x ∷ xs) (y ∷ ys) s t p =
      let below = not_older y x xs s ((Perm.mem_iff p).1 mem-cons_self) in
      let e : x ≡ y = same_head set x y ys t ((Perm.mem_iff p).0 mem-cons_self) below in
      let rest : Perm xs ys = (perm-cons y).0 (rw e at p) in
      ap (λ z. z ∷ xs) e ∙ ap (λ zs. y ∷ zs) (newest_unique set xs ys s.1 t.1 rest)
