-- ===== src/Http/Header/Extent.antt =====
-- http_10_parse_header of src/http.c writes inside the input only.
use aisl.Prelude.{
  ℕ, suc, ◌+◌, ◌≡◌, refl, ap, ◌∙◌, Option, none, some, Bytes, [], ◌∷◌, ◌++◌, length, take, drop,
  set, length-set, length-append, take-append-drop, Option-cases, inl, inr, arith,
}
use aisl.Http.Header.{
  HeaderMarks, Swept, no_header, scan_header, header_char, cut_header, swept, parse_header_line,
}

length-scan_header :
    (xs : Bytes) (i : ℕ) (m : HeaderMarks) → length (scan_header xs i m).bytes ≡ length xs
unfolding scan_header
length-scan_header [] i m = refl
length-scan_header (c ∷ cs) i m = elim (Option-cases (header_char c i m).newline) [
  | inl e ↦ rw e (ap suc (length-scan_header cs (i + 1) (header_char c i m)))
  | inr (k, e) ↦ rw e refl
]

length-cut_header :
    (mem : Bytes) (left newline : ℕ) (colon val val_end : Option ℕ)
    → length (cut_header mem left newline colon val val_end).0 ≡ length mem
unfolding cut_header
length-cut_header mem left newline (some c) (some v) (some e) =
    length-set (set mem c 0) e 0 ∙ length-set mem c 0
length-cut_header mem left newline none _ _ = refl
length-cut_header mem left newline (some c) none _ = refl
length-cut_header mem left newline (some c) (some v) none = refl

length-swept : (beyond : Bytes) (s : Swept) → length (swept beyond s).0 ≡ length (s.bytes ++ beyond)
unfolding swept
length-swept beyond s = elim (Option-cases s.marks.newline) [
  | inl e ↦ rw e refl
  | inr (k, e) ↦
      rw e
        (length-cut_header (s.bytes ++ beyond) s.left k s.marks.colon s.marks.val s.marks.val_end)
]

-- The header's parser keeps the extent of the memory.
pub length-parse_header_line :
    (mem : Bytes) (size : ℕ) → length (parse_header_line mem size).0 ≡ length mem
unfolding parse_header_line
length-parse_header_line mem size =
    let s = scan_header (take size mem) 0 no_header in
    omega (
      arith,
      length-swept (drop size mem) s,
      length-append s.bytes (drop size mem),
      length-scan_header (take size mem) 0 no_header,
      length-append (take size mem) (drop size mem),
      ap length (take-append-drop size mem),
    )
