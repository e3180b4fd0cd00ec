-- ===== src/StrUtils/Tests.antt =====
-- src/str-utils.c
use aisl.Prelude.{◌≡◌, refl, ◌↔◌, map, codes, to_lower, arith}
use aisl.StrUtils.{str_cmpi}
use aisl.StrUtils.Laws.{IsText, str_cmpi_zero_iff}

upper-IsText : IsText (codes "Close")
upper-IsText = omega arith

lower-IsText : IsText (codes "close")
lower-IsText = omega arith

str_cmpi_run : str_cmpi (codes "closed") (codes "CLOSE") ≡ 100
unfolding str_cmpi to_lower
str_cmpi_run = refl

str_cmpi_zero_iff_example :
    (str_cmpi (codes "Close") (codes "close") ≡ 0)
    ↔ (map to_lower (codes "Close") ≡ map to_lower (codes "close"))
str_cmpi_zero_iff_example =
    str_cmpi_zero_iff (codes "Close") (codes "close") upper-IsText lower-IsText
