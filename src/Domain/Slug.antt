-- ===== src/Domain/Slug.antt =====
-- internal/domain/validation.go: IsValidSlug and GenerateSlug.
pub mod Automaton
pub mod Valid
pub mod Stable
use job_board.Prelude.{
  ℕ, Bool, true, false, not, ◌&&◌, ◌||◌, List, [], ◌∷◌, ◌++◌, ltb, ◌==◌, if◌then◌else◌, is_empty,
  take,
}
use job_board.Text.{
  Text, txt, text_eq, len, trim_space, trim, trim_right, to_lower, is_lower, is_digit,
}

abbrev pub is_hyphen : ℕ → Bool
is_hyphen c = c == b'-'

-- The class [a-z0-9].
unfoldable pub is_slug_char : ℕ → Bool
unfolding is_lower is_digit
is_slug_char c = is_lower c || is_digit c

-- `slugRegex`, ^[a-z0-9]+(?:-[a-z0-9]+)*$, as its automaton: at the start, inside a word, after
-- a hyphen that a word must follow, and after a character that fits nowhere.
pub data State : Type 0 where
  start word hyphen dead : State

unfoldable pub next : State → ℕ → State
unfolding is_slug_char
next start c = if is_slug_char c then word else dead
next word c = if is_slug_char c then word else if is_hyphen c then hyphen else dead
next hyphen c = if is_slug_char c then word else dead
next dead c = dead

unfoldable pub run : State → Text → State
run q [] = q
run q (c ∷ s) = run (next q c) s

unfoldable pub accepts : State → Bool
accepts word = true
accepts _ = false

unfoldable pub matches_slug : Text → Bool
unfolding accepts run next
matches_slug s = accepts (run start s)

unfoldable pub is_valid_slug : Text → Bool
is_valid_slug slug = if len slug == 0 || ltb 255 (len slug) then false else matches_slug slug

-- The loop of `GenerateSlug`: the builder `b` and the flag `lastHyphen`.
unfoldable pub slug_loop : Text → Bool → Text → Text
slug_loop b last_hyphen [] = b
slug_loop b last_hyphen (r ∷ rest) =
    let copied = slug_loop (b ++ r ∷ []) false rest in
    let hyphened = slug_loop (b ++ b'-' ∷ []) true rest in
    let skipped = slug_loop b last_hyphen rest in
    if is_slug_char r
    then copied
    else if not last_hyphen && not (is_empty b)
    then hyphened
    else skipped

-- What follows the loop: the text holds [a-z0-9-] only, so bytes and code points agree.
unfoldable pub finish_slug : Text → Text
finish_slug b =
    let res = trim is_hyphen b in
    if text_eq res (txt "")
    then txt "job"
    else if ltb 255 (len res)
    then trim_right is_hyphen (take 255 res)
    else res

unfoldable pub generate_slug : (ℕ → ℕ) → Text → Text
generate_slug upper title = finish_slug (slug_loop [] false (to_lower upper (trim_space title)))
