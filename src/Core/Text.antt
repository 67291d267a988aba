-- ===== src/Core/Text.antt =====
-- The string handling of src/core/config.cpp and of the C library functions that the sources call,
-- over bytes.
use hw_agent.Prelude.{
  ℕ, ◌+◌, Bool, ◌&&◌, ◌||◌, Text, Option, none, some, [], ◌∷◌, ◌==◌, leb, if◌then◌else◌,
}

-- std::isspace in the C locale
unfoldable pub is_space : ℕ → Bool
is_space c = c == 32 || (leb 9 c && leb c 13)

-- std::isdigit
unfoldable pub is_digit : ℕ → Bool
is_digit c = leb b'0' c && leb c b'9'

unfoldable pub trim_left : Text → Text
unfolding is_space
trim_left [] = []
trim_left (c ∷ cs) = let rest = trim_left cs in if is_space c then rest else c ∷ cs

abbrev drop_space : ℕ → Text → Text
drop_space c [] = if is_space c then [] else c ∷ []
drop_space c (x ∷ rest) = c ∷ x ∷ rest

unfoldable pub trim_right : Text → Text
unfolding is_space
trim_right [] = []
trim_right (c ∷ cs) = drop_space c (trim_right cs)

-- `trim`
unfoldable pub trim : Text → Text
unfolding trim_left trim_right
trim value = trim_right (trim_left value)

-- std::tolower
unfoldable pub to_lower : ℕ → ℕ
to_lower c = if leb b'A' c && leb c b'Z' then c + 32 else c

-- value.rfind(prefix, 0) == 0, and what follows the prefix
unfoldable pub strip_prefix : Text → Text → Option Text
strip_prefix [] value = some value
strip_prefix (p ∷ ps) [] = none
strip_prefix (p ∷ ps) (c ∷ cs) = let rest = strip_prefix ps cs in if p == c then rest else none

abbrev pub keep_byte : ℕ → Option (Text × Text) → Option (Text × Text)
keep_byte x none = none
keep_byte x (some (before, after)) = some (x ∷ before, after)

-- value.find(c): what stands before and after the first `c`
unfoldable pub split_at : ℕ → Text → Option (Text × Text)
split_at c [] = none
split_at c (x ∷ xs) =
    let rest = keep_byte x (split_at c xs) in if x == c then some ([], xs) else rest

-- line.erase(line.find(c)), if `c` occurs
unfoldable pub before : ℕ → Text → Text
before c [] = []
before c (x ∷ xs) = let rest = x ∷ before c xs in if x == c then [] else rest

-- leading spaces, as the loop on `indent_spaces` counts them
unfoldable pub indent : Text → ℕ
indent [] = 0
indent (x ∷ xs) = let rest = indent xs + 1 in if x == 32 then rest else 0
