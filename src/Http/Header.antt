-- ===== src/Http/Header.antt =====
-- http_10_parse_header of src/http.c: one header line, its key put into lower case in place.
pub mod Extent
pub mod Field
pub mod Sweep
pub mod Progress
use aisl.Prelude.{
  ℕ, ◌+◌, ◌≡◌, Bool, true, false, not, ◌&&◌, ◌||◌, Option, none, some, List, [], ◌∷◌, ◌++◌, Bytes,
  length, take, drop, set, get_or, c_str, to_lower, ◌==◌, if◌then◌else◌, is_some,
}

-- The pointers of the loop; `key` is offset 0.
pub record HeaderMarks : Type 0 where
  pub colon : Option ℕ
  pub val : Option ℕ
  pub val_end : Option ℕ
  pub newline : Option ℕ

abbrev pub no_header : HeaderMarks
no_header = record { colon = none; val = none; val_end = none; newline = none }

-- `if (val && !val_end) val_end = data;`
abbrev pub end_value : ℕ → HeaderMarks → HeaderMarks
end_value i m =
    if is_some m.val && not (is_some m.val_end) then record m { val_end = some i } else m

-- `default:`
header_other : ℕ → HeaderMarks → HeaderMarks
header_other i m =
    let found = if is_some m.colon && not (is_some m.val) then record m { val = some i } else m in
    if is_some found.val_end then record found { val_end = none } else found

-- One round of the loop. The test of the source for a nameless header, `colon == key` where `colon`
-- is NULL, never holds.
unfoldable pub header_char : ℕ → ℕ → HeaderMarks → HeaderMarks
unfolding header_other
header_char c i m =
    if c == b' '
    then end_value i m
    else if c == b':'
    then (if is_some m.colon then m else record m { colon = some i })
    else if c == b'\n'
    then end_value i (record m { newline = some i })
    else if c == b'\r'
    then end_value i m
    else header_other i m

-- The byte that the round leaves in memory: the default case lowers it in front of the colon.
unfoldable pub header_byte : ℕ → HeaderMarks → ℕ
header_byte c m =
    if c == b' ' || (c == b':' || (c == b'\n' || c == b'\r'))
    then c
    else if is_some m.colon
    then c
    else to_lower c

-- The bytes as the loop leaves them, the pointers, and how many bytes are left behind the newline.
pub record Swept : Type 0 where
  pub bytes : Bytes
  pub marks : HeaderMarks
  pub left : ℕ

abbrev pub put_back : ℕ → Swept → Swept
put_back c s = record s { bytes = c ∷ s.bytes }

unfoldable pub scan_header : Bytes → ℕ → HeaderMarks → Swept
scan_header [] i m = record { bytes = []; marks = m; left = 0 }
scan_header (c ∷ cs) i m = put_back (header_byte c m) (elim (header_char c i m).newline [
  | some _ ↦ record { bytes = cs; marks = header_char c i m; left = length cs }
  | none ↦ scan_header cs (i + 1) (header_char c i m)
])

-- What is passed to `aisl_stream_set_header`, or that `aisl_stream_set_end_of_headers` is called.
pub data HeaderLine : Type 0 where
  hungry error : HeaderLine
  field : Bytes → Bytes → ℕ → HeaderLine
  end_of_headers : ℕ → HeaderLine

-- `newline == key || (newline == key+1 && *key == '\r')`
abbrev pub is_empty_line : Bytes → ℕ → Bool
is_empty_line mem newline = newline == 0 || (newline == 1 && get_or mem 0 0 == b'\r')

unfoldable pub cut_header : Bytes → ℕ → ℕ → Option ℕ → Option ℕ → Option ℕ → Bytes × HeaderLine
cut_header mem left newline (some colon) (some val) (some val_end) =
    let cut = set (set mem colon 0) val_end 0 in
    (cut, field (c_str cut) (c_str (drop val cut)) left)
cut_header mem left newline _ _ _ =
    (mem, if is_empty_line mem newline then end_of_headers left else error)

unfoldable pub swept : Bytes → Swept → Bytes × HeaderLine
unfolding cut_header
swept beyond s = elim s.marks.newline [
  | none ↦ (s.bytes ++ beyond, hungry)
  | some newline ↦
      cut_header (s.bytes ++ beyond) s.left newline s.marks.colon s.marks.val s.marks.val_end
]

-- `http_10_parse_header` on the `size` bytes at the head of `mem`
unfoldable pub parse_header_line : Bytes → ℕ → Bytes × HeaderLine
unfolding swept
parse_header_line mem size = swept (drop size mem) (scan_header (take size mem) 0 no_header)
