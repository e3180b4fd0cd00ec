-- ===== src/Http/Header/Progress.antt =====
-- How much of the input a header line takes.
use aisl.Prelude.{
  ℕ, ◌+◌, ◌<◌, ◌≡◌, refl, ap, inl, inr, Option, none, some, ◌++◌, [], ◌∷◌, Bytes, length, take,
  drop, ◌==◌, if◌then◌else◌, arith, Bool-cases, Option-cases, true,
}
use aisl.Http.Scan.{all_chars}
use aisl.Http.Frame.{not_newline, FirstLine, Stops, Stops-cons, shorter}
use aisl.Http.Header.{
  HeaderMarks, no_header, header_char, Swept, scan_header, HeaderLine, hungry, error, field,
  end_of_headers, is_empty_line, cut_header, swept, parse_header_line,
}

newline-header_char :
    (c i : ℕ) (m : HeaderMarks)
    → m.newline ≡ none
    → (header_char c i m).newline ≡ (if c == b'\n' then some i else none)
unfolding header_char
newline-header_char c i m n = ground arith

module _ (c i : ℕ) (cs : Bytes) (m : HeaderMarks) where
  sweep_more :
      (header_char c i m).newline ≡ none
      → let s = scan_header (c ∷ cs) i m in
        let s' = scan_header cs (i + 1) (header_char c i m) in
        (s.marks ≡ s'.marks) × (s.left ≡ s'.left)
  unfolding scan_header
  sweep_more n = ground arith

  sweep_done :
      (k : ℕ)
      → (header_char c i m).newline ≡ some k
      → let s = scan_header (c ∷ cs) i m in (s.marks.newline ≡ some k) × (s.left ≡ length cs)
  unfolding scan_header
  sweep_done k n = ground arith

sweep-Stops :
    (xs : Bytes) (i : ℕ) (m : HeaderMarks)
    → m.newline ≡ none
    → let s = scan_header xs i m in Stops xs s.marks.newline s.left
sweep-Stops [] i m n = unfold scan_header in rw n refl
sweep-Stops (c ∷ cs) i m n = elim (Option-cases (header_char c i m).newline) [
  | inl more ↦
      let char = newline-header_char c i m n in
      let plain : not_newline c ≡ true = ground arith in
      let (same, left) = sweep_more c i cs m more in
      rw (same, left) (Stops-cons c cs _ _ plain (sweep-Stops cs (i + 1) (header_char c i m) more))
  | inr (k, done) ↦
      let char = newline-header_char c i m n in
      let byte : c ≡ b'\n' = ground arith in
      let (found, left) = sweep_done c i cs m k done in
      rw found (record {
        line = [];
        rest = cs;
        splits = ap (λ x. x ∷ cs) byte;
        no_newline = refl;
        left_eq = left;
      })
]

-- What each answer of the parser says of its input.
abbrev pub Framed : Bytes → HeaderLine → Type 0
Framed xs hungry = all_chars not_newline xs ≡ true
Framed xs error = (left : ℕ) × FirstLine xs left
Framed xs (field key val left) = FirstLine xs left × (left < length xs)
Framed xs (end_of_headers left) = FirstLine xs left × (left < length xs)

cut_header-Framed :
    (mem xs : Bytes) (left newline : ℕ) (colon val val_end : Option ℕ)
    → FirstLine xs left
    → Framed xs (cut_header mem left newline colon val val_end).1
unfolding cut_header
cut_header-Framed mem xs left newline (some c) (some v) (some e) f = (f, shorter xs left f)
cut_header-Framed mem xs left newline _ _ _ f = elim (Bool-cases (is_empty_line mem newline)) [
  | inl e ↦ rw e (f, shorter xs left f)
  | inr e ↦ rw e (left, f)
]

swept-Framed :
    (beyond xs : Bytes) (s : Swept) (newline : Option ℕ)
    → s.marks.newline ≡ newline
    → Stops xs newline s.left
    → Framed xs (swept beyond s).1
swept-Framed beyond xs s none n f = unfold swept in rw n f
swept-Framed beyond xs s (some k) n f =
    unfold swept in
    rw n (
      cut_header-Framed (s.bytes ++ beyond) xs s.left k s.marks.colon s.marks.val s.marks.val_end f)

-- A header line or the end of the headers is read from input that holds a newline, and what is left
-- is exactly what stands behind the first one, so that it is shorter than the input; more input is
-- asked for exactly where there is no newline.
pub parse_header_line-Framed :
    (mem : Bytes) (size : ℕ) → Framed (take size mem) (parse_header_line mem size).1
unfolding parse_header_line
parse_header_line-Framed mem size =
    swept-Framed (drop size mem) (take size mem) (scan_header (take size mem) 0 no_header) _ refl
      (sweep-Stops (take size mem) 0 no_header refl)
