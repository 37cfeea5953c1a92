-- ===== src/Storage/Names/Segments.antt =====
-- A sanitized file name is a single element of a path, whatever name the client sent.
use job_board.Prelude.{
  ℕ, zero, suc, ◌≤◌, ◌≡◌, refl, Bool, true, false, not, ◌&&◌, ◌||◌, [], ◌∷◌, ◌++◌, map, ltb, ◌==◌,
  arith, inl, inr, Bool-cases, All, All-append, is_empty, any, take, length, if◌then◌else◌,
}
use job_board.Text.{
  Text, txt, text_eq, trim, trim_left, trim_right, trim_space, to_lower, ascii_lower, is_alnum,
  is_letter, is_lower, is_upper, is_digit,
}
use job_board.Storage.Names.{
  is_slash, last_part, base_name, extension, trim_suffix, is_safe_char, replace_pairs,
  contains_pair, collapse, client_base, made_safe, or_resume, cut_name, is_edge_char,
  lowered_extension, safe_stem, sanitize_filename,
}

-- A character that separates no path, on any system.
abbrev pub Plain : ℕ → Type 0
Plain c = (is_slash c ≡ false) × ((c == b'\\') ≡ false)

module _ {κ} (P : ℕ → Type κ) where
  if-All : (b : Bool) (s t : Text) → All P s → All P t → All P (if b then s else t)
  if-All true s t h k = h
  if-All false s t h k = k

  last_part-All : (cur s : Text) → All P cur → All P s → All P (last_part cur s)
  unfolding last_part
  last_part-All cur [] h k = h
  last_part-All cur (c ∷ s) h (p, k) =
      if-All (is_slash c) _ _ (last_part-All [] s tt k)
        (last_part-All (cur ++ c ∷ []) s (All-append P cur (c ∷ []) h (p, tt)) k)

  trim_left-All : (q : ℕ → Bool) (s : Text) → All P s → All P (trim_left q s)
  unfolding trim_left
  trim_left-All q [] h = tt
  trim_left-All q (c ∷ s) (p, h) = if-All (q c) _ _ (trim_left-All q s h) (p, h)

  trim_right-All : (q : ℕ → Bool) (s : Text) → All P s → All P (trim_right q s)
  unfolding trim_right
  trim_right-All q [] h = tt
  trim_right-All q (c ∷ s) (p, h) =
      if-All (q c && is_empty (trim_right q s)) _ _ tt (p, trim_right-All q s h)

  trim-All : (q : ℕ → Bool) (s : Text) → All P s → All P (trim q s)
  unfolding trim
  trim-All q s h = trim_right-All q (trim_left q s) (trim_left-All q s h)

  take-All : (n : ℕ) (s : Text) → All P s → All P (take n s)
  take-All zero s h = tt
  take-All (suc n) [] h = tt
  take-All (suc n) (c ∷ s) (p, h) = (p, take-All n s h)

  replace_pairs-All : (s : Text) → P b'_' → All P s → All P (replace_pairs s)
  unfolding replace_pairs
  replace_pairs-All [] u h = tt
  replace_pairs-All (c ∷ []) u h = h
  replace_pairs-All (c ∷ d ∷ s) u (p, (q, h)) =
      if-All (c == b'_' && d == b'_') _ _ (u, replace_pairs-All s u h)
        (p, replace_pairs-All (d ∷ s) u (q, h))

  collapse-All : (fuel : ℕ) (s : Text) → P b'_' → All P s → All P (collapse fuel s)
  unfolding collapse
  collapse-All zero s u h = h
  collapse-All (suc fuel) s u h =
      if-All (contains_pair s) _ _ (collapse-All fuel (replace_pairs s) u (replace_pairs-All s u h))
        h

  extension-All : (s : Text) → All P s → All P (extension s)
  unfolding extension
  extension-All [] h = tt
  extension-All (c ∷ s) (p, h) =
      if-All (not (is_empty (extension s))) _ _ (extension-All s h)
        (if-All (c == b'.' && not (any is_slash s)) _ _ (p, h) tt)

  map-All : (f : ℕ → ℕ) (s : Text) → ((c : ℕ) → P (f c)) → All P (map f s)
  map-All f [] h = tt
  map-All f (c ∷ s) h = (h c, map-All f s h)

last_part-unslashed :
    (cur s : Text)
    → All (λ c. is_slash c ≡ false) cur
    → All (λ c. is_slash c ≡ false) (last_part cur s)
unfolding last_part
last_part-unslashed cur [] h = h
last_part-unslashed cur (c ∷ s) h = elim (Bool-cases (is_slash c)) [
  | inl slash ↦ rw slash (last_part-unslashed [] s tt)
  | inr other ↦
      rw other (last_part-unslashed (cur ++ c ∷ []) s (All-append _ cur (c ∷ []) h (other, tt)))
]

All-both {κ μ} :
    (P : ℕ → Type κ) (Q : ℕ → Type μ) (s : Text) → All P s → All Q s → All (λ c. P c × Q c) s
All-both P Q [] h k = tt
All-both P Q (c ∷ s) (p, h) (q, k) = ((p, q), All-both P Q s h k)

abbrev NoBackslash : ℕ → Type 0
NoBackslash c = (c == b'\\') ≡ false

client_base-Plain : (trimmed : Text) → All Plain (client_base trimmed)
unfolding client_base
client_base-Plain trimmed =
    let forward = map (λ c. if c == b'\\' then b'/' else c) (base_name trimmed) in
    All-both (λ c. is_slash c ≡ false) NoBackslash (last_part [] forward)
      (last_part-unslashed [] forward tt)
      (last_part-All NoBackslash [] forward tt (
        map-All NoBackslash (λ c. if c == b'\\' then b'/' else c) (base_name trimmed)
          (λ c. ground arith)))

safe-Plain : (c : ℕ) → Plain (if is_safe_char c then c else b'_')
unfolding is_safe_char is_alnum is_letter is_lower is_upper is_digit
safe-Plain c = (ground arith, ground arith)

or_resume-Plain : (s : Text) → All Plain s → All Plain (or_resume s)
unfolding txt
or_resume-Plain s h =
    let fine : (false ≡ false) × (false ≡ false) = (refl, refl) in
    if-All Plain (text_eq s (txt "")) (txt "resume") s
      (fine, (fine, (fine, (fine, (fine, (fine, tt)))))) h

cut_name-Plain : (s : Text) → All Plain s → All Plain (cut_name s)
cut_name-Plain s h = if-All Plain (ltb 100 (length s)) (take 100 s) s (take-All Plain 100 s h) h

safe_stem-Plain : (name : Text) → All Plain (safe_stem name)
unfolding safe_stem
safe_stem-Plain name =
    let replaced = made_safe name in
    cut_name-Plain _ (
      or_resume-Plain _ (
        trim-All Plain is_edge_char _ (
          collapse-All Plain (length replaced) replaced (refl, refl)
            (map-All Plain (λ c. if is_safe_char c then c else b'_') name safe-Plain))))

-- Lowering a character above ASCII gives no separator.
abbrev pub LowersPlainly : (ℕ → ℕ) → Type 0
LowersPlainly lower = (c : ℕ) → 128 ≤ c → Plain (lower c)

lowered-Plain :
    (lower : ℕ → ℕ) (c : ℕ)
    → LowersPlainly lower
    → Plain c
    → Plain (if ltb c 128 then ascii_lower c else lower c)
unfolding ascii_lower
lowered-Plain lower c keeps p = elim (Bool-cases (ltb c 128)) [
  | inl ascii ↦ (ground arith, ground arith)
  | inr above ↦ rw above (keeps c (ground arith))
]

to_lower-Plain :
    (lower : ℕ → ℕ) (s : Text) → LowersPlainly lower → All Plain s → All Plain (to_lower lower s)
unfolding to_lower
to_lower-Plain lower [] keeps h = tt
to_lower-Plain lower (c ∷ s) keeps (p, h) =
    (lowered-Plain lower c keeps p, to_lower-Plain lower s keeps h)

lowered_extension-Plain :
    (lower : ℕ → ℕ) (base : Text)
    → LowersPlainly lower
    → All Plain base
    → All Plain (lowered_extension lower base)
unfolding txt
lowered_extension-Plain lower base keeps h =
    if-All Plain (text_eq (to_lower lower (extension base)) (txt ".")) (txt "") _ tt
      (to_lower-Plain lower (extension base) keeps (extension-All Plain base h))

-- A sanitized file name holds neither '/' nor '\', whatever the client sends, if lowering a character
-- above ASCII gives neither.
pub sanitize_filename-Plain :
    (lower : ℕ → ℕ) (filename : Text)
    → LowersPlainly lower
    → All Plain (sanitize_filename lower filename)
unfolding sanitize_filename txt text_eq
sanitize_filename-Plain lower filename keeps =
    let base = client_base (trim_space filename) in
    let resume = or_resume-Plain [] tt in
    if-All Plain (text_eq (trim_space filename) (txt "")) (txt "resume") _ resume (
      if-All Plain (text_eq base (txt ".") || text_eq base (txt "/") || text_eq base (txt ""))
        (txt "resume") _ resume
        (All-append Plain _ _ (safe_stem-Plain (trim_suffix base (extension base)))
          (lowered_extension-Plain lower base keeps (client_base-Plain (trim_space filename)))))
