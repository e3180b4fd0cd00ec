-- ===== src/StrUtils.antt =====
-- src/str-utils.c. str_copy, which duplicates a string, is the identity on values.
mod Tests
pub mod Laws
use aisl.Prelude.{ℕ, ◌+◌, ◌-◌, ◌%◌, [], ◌∷◌, Bytes, to_lower, ◌==◌, if◌then◌else◌}

-- `r = c1 - c2` in a char, as its bit pattern
abbrev pub char_diff : ℕ → ℕ → ℕ
char_diff a b = (a + 256 - b) % 256

-- The result for two strings given without their NULs, as the bit pattern of `r`.
unfoldable pub str_cmpi : Bytes → Bytes → ℕ
str_cmpi [] [] = 0
str_cmpi [] (d ∷ ds) = char_diff 0 (to_lower d)
str_cmpi (c ∷ cs) [] = char_diff (to_lower c) 0
str_cmpi (c ∷ cs) (d ∷ ds) =
    let rest = str_cmpi cs ds in
    if char_diff (to_lower c) (to_lower d) == 0 then rest else char_diff (to_lower c) (to_lower d)
