-- ===== src/Store/Uuid.antt =====
-- internal/store/postgres/helpers.go: isUUID.
use job_board.Prelude.{
  ℕ, zero, suc, Bool, true, false, ◌&&◌, ◌||◌, List, [], ◌∷◌, Option, none, some, leb, ◌==◌,
  is_empty,
}
use job_board.Text.{Text, is_digit}

-- The class [0-9a-fA-F].
abbrev is_hex : ℕ → Bool
is_hex c = is_digit c || leb b'a' c && leb c b'f' || leb b'A' c && leb c b'F'

-- The text after `n` hexadecimal digits.
after_hex : ℕ → Text → Option Text
after_hex zero s = some s
after_hex (suc n) [] = none
after_hex (suc n) (c ∷ s) = elim (is_hex c) [ true ↦ after_hex n s | false ↦ none ]

after_hyphen : Option Text → Option Text
after_hyphen none = none
after_hyphen (some []) = none
after_hyphen (some (c ∷ s)) = elim (c == b'-') [ true ↦ some s | false ↦ none ]

-- Groups of so many digits, each but the last with a hyphen after it.
after_groups : List ℕ → Option Text → Option Text
after_groups ns none = none
after_groups [] (some s) = some s
after_groups (n ∷ []) (some s) = after_hex n s
after_groups (n ∷ m ∷ ns) (some s) = after_groups (m ∷ ns) (after_hyphen (after_hex n s))

abbrev ends : Option Text → Bool
ends none = false
ends (some s) = is_empty s

-- `isUUID`
unfoldable pub is_uuid : Text → Bool
unfolding after_hex after_hyphen after_groups
is_uuid s = ends (after_groups (8 ∷ 4 ∷ 4 ∷ 4 ∷ 12 ∷ []) (some s))
