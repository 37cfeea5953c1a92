-- ===== src/Store/TextArray/RoundTrip.antt =====
-- Reading back what was written gives the strings that were written.
use job_board.Prelude.{
  ℕ, ◌≡◌, refl, ◌∙◌, ap, true, false, ◌||◌, List, [], ◌∷◌, ◌++◌, Option, none, some, ◌==◌,
  Bool-cases, inl, inr, append_assoc, append-nil, arith, ◌≡⟨◌⟩◌, ◌∎,
}
use job_board.Text.{Text, txt, text_eq, trim_space, has_prefix, is_space, trim}
use job_board.Text.Trim.{trim_bracketed}
use job_board.Domain.Values.{Value}
use job_board.Store.TextArray.{
  escape, write_items, value, text, ok, read_items, ends_with, drop_last, scan_text, scan,
}

abbrev pub written : Option (List Text) → List Text
written none = []
written (some a) = a

read-plain :
    (cur : Text) (r : ℕ) (rest : Text)
    → (r == b'\\' || r == b'"') ≡ false
    → read_items cur true false (r ∷ rest) ≡ read_items (cur ++ r ∷ []) true false rest
unfolding read_items
read-plain cur r rest h = ground arith

read-escape :
    (cur s rest : Text)
    → read_items cur true false (escape s ++ rest) ≡ read_items (cur ++ s) true false rest
unfolding read_items escape
read-escape cur [] rest = rw append-nil
read-escape cur (r ∷ s) rest = elim (Bool-cases (r == b'\\' || r == b'"')) [
  | inl special ↦ rw special (read-escape (cur ++ r ∷ []) s rest ∙ rw append_assoc)
  | inr plain ↦ rw plain (
      read-plain cur r (escape s ++ rest) plain
      ∙ read-escape (cur ++ r ∷ []) s rest
      ∙ rw append_assoc)
]

read-write :
    (cur : Text) (a : List Text) → read_items cur false false (write_items false a) ≡ cur ∷ a
unfolding read_items write_items
read-write cur [] = refl
read-write cur (s ∷ a) =
    ap (λ t. cur ∷ t) (read-escape [] s (b'"' ∷ write_items false a) ∙ read-write s a)

ends_with-append : (s : Text) (d : ℕ) → ends_with d (s ++ d ∷ []) ≡ true
unfolding ends_with
ends_with-append [] d = ground arith
ends_with-append (c ∷ []) d = ground arith
ends_with-append (c ∷ c' ∷ s) d = ends_with-append (c' ∷ s) d

drop_last-append : (s : Text) (d : ℕ) → drop_last (s ++ d ∷ []) ≡ s
unfolding drop_last
drop_last-append [] d = refl
drop_last-append (c ∷ []) d = refl
drop_last-append (c ∷ c' ∷ s) d = ap (λ t. c ∷ t) (drop_last-append (c' ∷ s) d)

scan_text-braces :
    (w : Text)
    → scan_text (b'{' ∷ ((b'"' ∷ w) ++ (b'}' ∷ []))) ≡ ok (read_items [] false false (b'"' ∷ w))
unfolding scan_text text_eq txt has_prefix
scan_text-braces w =
    rw (ends_with-append (b'{' ∷ b'"' ∷ w) b'}') (rw (drop_last-append (b'"' ∷ w) b'}'))

-- Scan reads from the literal that Value writes the strings that it was given; nil reads as empty.
pub scan-value :
    (sprint : Value → Text) (a : Option (List Text)) → scan sprint (text (value a)) ≡ ok (written a)
unfolding scan value trim_space read_items
scan-value sprint none = unfold txt text_eq has_prefix in refl
scan-value sprint (some []) = unfold txt text_eq has_prefix in refl
scan-value sprint (some (s ∷ a)) =
    scan_text (trim is_space (b'{' ∷ (w ++ (b'}' ∷ []))))
    ≡⟨ ap scan_text (trim_bracketed is_space b'{' w b'}' refl refl) ⟩
      scan_text (b'{' ∷ (w ++ (b'}' ∷ [])))
    ≡⟨ scan_text-braces (escape s ++ (b'"' ∷ write_items false a)) ⟩
      ok (read_items [] false false w)
    ≡⟨ ap ok (read-escape [] s (b'"' ∷ write_items false a) ∙ read-write s a) ⟩ ok (s ∷ a) ∎
  where
    w : Text
    w = b'"' ∷ (escape s ++ (b'"' ∷ write_items false a))
