-- ===== src/Http/Header/Field.antt =====
-- A well-formed header line is read as its key, in lower case, and its value.
use aisl.Prelude.{
  ℕ, zero, suc, ◌+◌, ◌≡◌, refl, sym, ap, ◌∙◌, some, ◌++◌, [], ◌∷◌, Bool, map, Bytes, to_lower,
  length, take, drop, set, replicate, arith, true, length-replicate, take_exact, drop_exact,
  append_assoc,
}
use aisl.Prelude.Cut.{no_nul, c_str-append, set_skip, set_here, drop_second}
use aisl.Http.Scan.{all_chars}
use aisl.Http.Header.{field, cut_header, parse_header_line}
use aisl.Http.Header.Sweep.{is_key_char, is_edge_char, is_value, continues, line_tail, sweep_line}

-- `Key:  value  \r\n` with any spaces round the value, and what follows the line.
abbrev pub header_text : Bytes → ℕ → Bytes → ℕ → Bytes → Bytes
header_text key before value after rest =
    key ++ b':' ∷ (replicate before b' ' ++ (value ++ line_tail after rest))

-- The same bytes once the parser has cut them.
abbrev pub cut_header_text : Bytes → ℕ → Bytes → ℕ → Bytes → Bytes
cut_header_text key before value after rest =
    map to_lower key ++ 0 ∷ (replicate before b' ' ++ (value ++ 0 ∷ drop 1 (line_tail after rest)))

length-map : (f : ℕ → ℕ) (xs : Bytes) → length (map f xs) ≡ length xs
length-map f [] = refl
length-map f (x ∷ xs) = ap suc (length-map f xs)

lower_no_nul : (key : Bytes) → all_chars is_key_char key ≡ true → no_nul (map to_lower key) ≡ true
unfolding to_lower
lower_no_nul [] h = refl
lower_no_nul (c ∷ key) h = ground (arith, lower_no_nul key)

continues-no_nul : (closed : Bool) (cs : Bytes) → continues closed cs ≡ true → no_nul cs ≡ true
continues-no_nul closed [] h = refl
continues-no_nul closed (c ∷ cs) h = ground (arith, continues-no_nul (is_edge_char c) cs)

value_no_nul : (value : Bytes) → is_value value ≡ true → no_nul value ≡ true
value_no_nul [] h = cc
value_no_nul (c ∷ cs) h = ground (arith, continues-no_nul true cs)

tail_cut : (n : ℕ) (rest : Bytes) → set (line_tail n rest) 0 0 ≡ 0 ∷ drop 1 (line_tail n rest)
tail_cut zero rest = refl
tail_cut (suc n) rest = refl

module _ (key value rest : Bytes) (before after : ℕ) where
  abbrev value_at : ℕ
  value_at = length key + 1 + before

  abbrev lowered : Bytes
  lowered = header_text (map to_lower key) before value after rest

  cut_lowered :
      set (set lowered (length key) 0) (value_at + length value) 0
      ≡ cut_header_text key before value after rest
  cut_lowered =
      let low = map to_lower key in
      let spaces : Bytes = replicate before b' ' in
      let len = length-map to_lower key in
      let n = length-replicate {A = ℕ} before b' ' in
      let tail = line_tail after rest in
      ap (λ m. set m (value_at + length value) 0)
        (set_here low (spaces ++ (value ++ tail)) b':' (length key) 0 (sym len))
      ∙ set_skip low _ _ (suc (before + length value)) 0 (omega arith)
      ∙ ap (λ r. low ++ 0 ∷ r)
          (set_skip spaces _ _ (length value) 0 (omega arith)
            ∙ ap (λ r. spaces ++ r)
                (set_skip value tail (length value) 0 0 (omega arith)
                  ∙ ap (λ r. value ++ r) (tail_cut after rest)))

  value_found :
      drop value_at (cut_header_text key before value after rest)
      ≡ value ++ 0 ∷ drop 1 (line_tail after rest)
  value_found =
      drop_second (map to_lower key) (replicate before b' ') _ 0 value_at
        (omega (arith, length-map to_lower key, length-replicate {A = ℕ} before b' '))

  cut_header_field :
      (left newline : ℕ)
      → all_chars is_key_char key ≡ true
      → is_value value ≡ true
      → cut_header lowered left newline
          (some (length key))
          (some value_at)
          (some (value_at + length value))
        ≡ (cut_header_text key before value after rest, field (map to_lower key) value left)
  cut_header_field left newline h g =
      let tail = drop 1 (line_tail after rest) in
      unfold cut_header in
      rw (
        cut_lowered,
        value_found,
        c_str-append value tail (value_no_nul value g),
        c_str-append (map to_lower key) _ (lower_no_nul key h),
      )

pub header_text-append :
    (key value rest beyond : Bytes) (before after : ℕ)
    → header_text key before value after (rest ++ beyond)
      ≡ header_text key before value after rest ++ beyond
header_text-append key value rest beyond before after = simp append_assoc

-- `http_10_parse_header` reads a header line as exactly its key and value. For a key of bytes that
-- are no NUL, colon or line end, and a value of bytes that are no NUL or line end and that begins
-- and ends with a byte that is no space or colon, with any number of spaces round it: from the text
-- of the line, with any bytes behind it in and past the input, it delivers the key in lower case
-- and the value without the spaces round it, leaves the bytes behind the line, and changes memory
-- only in the key, at the colon and behind the value.
pub parse_header_line-header_text :
    (key value rest beyond : Bytes) (before after : ℕ)
    → all_chars is_key_char key ≡ true
    → is_value value ≡ true
    → parse_header_line
        (header_text key before value after (rest ++ beyond))
        (length (header_text key before value after rest))
      ≡ (
        cut_header_text key before value after (rest ++ beyond),
        field (map to_lower key) value (length rest),
      )
parse_header_line-header_text key value rest beyond before after h g =
    let text = header_text key before value after rest in
    let whole = header_text-append key value rest beyond before after in
    let seen = ap (take (length text)) whole ∙ take_exact (length text) text beyond refl in
    let unseen = ap (drop (length text)) whole ∙ drop_exact (length text) text beyond refl in
    let v = length key + 1 + before in
    let low = sym (header_text-append (map to_lower key) value rest beyond before after) in
    unfold parse_header_line in
    rw (seen, unseen, sweep_line key value rest before after h g, low)
      (cut_header_field key value (rest ++ beyond) before after (length rest)
        (v + length value + after + 1) h g)
