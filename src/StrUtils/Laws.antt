-- ===== src/StrUtils/Laws.antt =====
-- str_cmpi compares strings up to the case of their letters.
use aisl.Prelude.{ℕ, ◌<◌, ◌≡◌, [], ◌∷◌, ◌↔◌, map, Bytes, to_lower, ◌==◌, if◌then◌else◌, arith}
use aisl.StrUtils.{str_cmpi, char_diff}

-- The bytes of a C string.
abbrev pub IsText : Bytes → Type 0
IsText [] = Unit {0}
IsText (c ∷ cs) = (0 < c) × (c < 256) × IsText cs

lowered : (c : ℕ) → 0 < c → c < 256 → (0 < to_lower c) × (to_lower c < 256)
unfolding to_lower
lowered c h g = ground arith

char_diff_zero_iff : (a b : ℕ) → a < 256 → b < 256 → (char_diff a b ≡ 0) ↔ (a ≡ b)
char_diff_zero_iff a b h g = ground arith

same_or :
    (c d r k : ℕ) {cs ds : Bytes}
    → (r ≡ 0) ↔ (c ≡ d)
    → (k ≡ 0) ↔ (cs ≡ ds)
    → ((if r == 0 then k else r) ≡ 0) ↔ (c ∷ cs ≡ d ∷ ds)
same_or c d r k same rest = ground arith

-- `str_cmpi` is zero exactly on strings that are equal once their letters are lowered.
pub str_cmpi_zero_iff :
    (a b : Bytes) → IsText a → IsText b → (str_cmpi a b ≡ 0) ↔ (map to_lower a ≡ map to_lower b)
unfolding str_cmpi
str_cmpi_zero_iff [] [] h g = ground arith
str_cmpi_zero_iff [] (d ∷ ds) h (g, g', _) = let l = lowered d g g' in ground arith
str_cmpi_zero_iff (c ∷ cs) [] (h, h', _) g = let l = lowered c h h' in ground arith
str_cmpi_zero_iff (c ∷ cs) (d ∷ ds) (h, h', hs) (g, g', gs) =
    let l = lowered c h h' in
    let m = lowered d g g' in
    let same = char_diff_zero_iff (to_lower c) (to_lower d) l.1 m.1 in
    same_or (to_lower c) (to_lower d) (char_diff (to_lower c) (to_lower d)) (str_cmpi cs ds) same
      (str_cmpi_zero_iff cs ds hs gs)
