-- ===== src/Store/Integrity/Tables.antt =====
-- Lists of rows with a key: uniqueness, and references between tables.
use job_board.Prelude.{
  ◌≡◌, refl, sym, ◌∙◌, Bool, true, false, not, ◌&&◌, List, [], ◌∷◌, some, map, if◌then◌else◌, any,
  filter, find, All, arith, inl, inr, Bool-cases,
}
use job_board.Text.{Text, text_eq}
use job_board.Text.Equality.{text_eq_sound, text_eq_refl}

pub All-filter {κ} :
    {A : Type 0} (P : A → Type κ) (q : A → Bool) (xs : List A) → All P xs → All P (filter q xs)
All-filter P q [] h = tt
All-filter P q (x ∷ xs) (p, h) = elim (Bool-cases (q x)) [
  | inl keep ↦ rw keep (p, All-filter P q xs h)
  | inr skip ↦ rw skip (All-filter P q xs h)
]

-- Every member that is kept has the property, by being kept.
pub All-filter_of {κ μ} :
    {A : Type 0} (P : A → Type κ) (Q : A → Type μ) (q : A → Bool) (xs : List A)
    → ((x : A) → q x ≡ true → P x → Q x)
    → All P xs
    → All Q (filter q xs)
All-filter_of P Q q [] f h = tt
All-filter_of P Q q (x ∷ xs) f (p, h) = elim (Bool-cases (q x)) [
  | inl keep ↦ rw keep (f x keep p, All-filter_of P Q q xs f h)
  | inr skip ↦ rw skip (All-filter_of P Q q xs f h)
]

pub All-map_of {κ μ} :
    {A B : Type 0} (P : A → Type κ) (Q : B → Type μ) (g : A → B) (xs : List A)
    → ((x : A) → P x → Q (g x))
    → All P xs
    → All Q (map g xs)
All-map_of P Q g [] f h = tt
All-map_of P Q g (x ∷ xs) f (p, h) = (f x p, All-map_of P Q g xs f h)

pub All-weaken {κ μ} :
    {A : Type 0} (P : A → Type κ) (Q : A → Type μ) (xs : List A)
    → ((x : A) → P x → Q x)
    → All P xs
    → All Q xs
All-weaken P Q [] f h = tt
All-weaken P Q (x ∷ xs) f (p, h) = (f x p, All-weaken P Q xs f h)

pub any-filter-false :
    {A : Type 0} (p q : A → Bool) (xs : List A) → any p xs ≡ false → any p (filter q xs) ≡ false
any-filter-false p q [] e = refl
any-filter-false p q (x ∷ xs) e = ground (arith, any-filter-false p q xs)

-- A row is in one of two complementary parts of a table.
pub any-parts :
    {A : Type 0} (p q : A → Bool) (xs : List A)
    → any p xs ≡ true
    → any p (filter q xs) ≡ false
    → any p (filter (λ x. not (q x)) xs) ≡ true
any-parts p q [] e n = cc
any-parts p q (x ∷ xs) e n = ground (arith, any-parts p q xs)

pub find-All {κ} :
    {A : Type 0} (P : A → Type κ) (p : A → Bool) (xs : List A) {x : A}
    → find p xs ≡ some x
    → All P xs
    → P x
find-All P p [] e h = cc
find-All P p (y ∷ ys) {x} e (a, h) = elim (Bool-cases (p y)) [
  | inl here ↦ let same : y ≡ x = cc (rw here at e) in rw (← same) a
  | inr there ↦ find-All P p ys (rw there at e) h
]

pub find-some : {A : Type 0} (p : A → Bool) (xs : List A) {x : A} → find p xs ≡ some x → p x ≡ true
find-some p [] e = cc
find-some p (y ∷ ys) {x} e = elim (Bool-cases (p y)) [
  | inl here ↦ let same : y ≡ x = cc (rw here at e) in rw (← same) here
  | inr there ↦ find-some p ys (rw there at e)
]

module _ {A : Type 0} (key : A → Text) where
  -- The rows with the key `k`.
  abbrev pub has : Text → A → Bool
  has k x = text_eq (key x) k

  -- No two rows have the same key.
  abbrev pub Unique : List A → Type 0
  Unique [] = Unit
  Unique (x ∷ xs) = (any (has (key x)) xs ≡ false) × Unique xs

  pub Unique-filter : (q : A → Bool) (xs : List A) → Unique xs → Unique (filter q xs)
  Unique-filter q [] h = tt
  Unique-filter q (x ∷ xs) (n, h) = elim (Bool-cases (q x)) [
    | inl keep ↦ rw keep (any-filter-false (has (key x)) q xs n, Unique-filter q xs h)
    | inr skip ↦ rw skip (Unique-filter q xs h)
  ]

  pub any-map_key :
      (g : A → A) (k : Text) (xs : List A)
      → ((x : A) → key (g x) ≡ key x)
      → any (has k) (map g xs) ≡ any (has k) xs
  any-map_key g k [] f = refl
  any-map_key g k (x ∷ xs) f = rw (f x, any-map_key g k xs f) refl

  pub Unique-map :
      (g : A → A) (xs : List A) → ((x : A) → key (g x) ≡ key x) → Unique xs → Unique (map g xs)
  Unique-map g [] f h = tt
  Unique-map g (x ∷ xs) f (n, h) = (rw (f x, any-map_key g (key x) xs f) n, Unique-map g xs f h)

  -- A row with another key than the deleted one is still there.
  pub any-filter_ne :
      (k gone : Text) (xs : List A)
      → text_eq k gone ≡ false
      → any (has k) (filter (λ x. not (has gone x)) xs) ≡ any (has k) xs
  any-filter_ne k gone [] e = refl
  any-filter_ne k gone (x ∷ xs) e =
      ground (arith, any-filter_ne k gone xs, text_eq_sound (key x) gone, text_eq_sound (key x) k)

text_ne-sym : (a b : Text) → text_eq a b ≡ false → text_eq b a ≡ false
text_ne-sym a b e = elim (Bool-cases (text_eq b a)) [
  | inl same ↦
      let equal : b ≡ a = text_eq_sound b a same in
      let yes : text_eq a b ≡ true = rw equal (text_eq_refl a) in cc
  | inr apart ↦ apart
]

module _ {A : Type 0} (id slug : A → Text) (uuid : Text) (new : A) where
  abbrev pub replace : A → A
  replace x = if has id uuid x then new else x

  pub id-replace : (x : A) → id new ≡ uuid → id (replace x) ≡ id x
  id-replace x e = elim (Bool-cases (has id uuid x)) [
    | inl same ↦ rw same (e ∙ sym (text_eq_sound (id x) uuid same))
    | inr other ↦ rw other refl
  ]

  -- The rows that would conflict with `new` in the second key.
  abbrev pub conflicts : A → Bool
  conflicts x = has slug (slug new) x && not (has id uuid x)

  any-replace :
      (p : A → Bool) (xs : List A)
      → any p xs ≡ false
      → p new ≡ false
      → any p (map replace xs) ≡ false
  any-replace p [] e n = refl
  any-replace p (x ∷ xs) e n = ground (arith, any-replace p xs)

  any-replace_none :
      (xs : List A)
      → any conflicts xs ≡ false
      → any (has id uuid) xs ≡ false
      → any (has slug (slug new)) (map replace xs) ≡ false
  any-replace_none [] c n = refl
  any-replace_none (x ∷ xs) c n = ground (arith, any-replace_none xs)

  -- Where no other row has the new second key, it stays unique.
  pub Unique-replace :
      (xs : List A)
      → any conflicts xs ≡ false
      → Unique id xs
      → Unique slug xs
      → Unique slug (map replace xs)
  Unique-replace [] c u h = tt
  Unique-replace (x ∷ xs) c (n, u) (m, h) = elim (Bool-cases (has id uuid x)) [
    | inl same ↦
        let none_left : any (has id uuid) xs ≡ false = rw (← (text_eq_sound (id x) uuid same)) n in
        let rest = Unique-replace xs (ground arith) u h in
        rw same (any-replace_none xs (ground arith) none_left, rest)
    | inr other ↦
        let apart = text_ne-sym (slug x) (slug new) (ground arith) in
        rw other (any-replace (has slug (slug x)) xs m apart, Unique-replace xs (ground arith) u h)
  ]
