-- ===== src/Client/Lines.antt =====
-- Header lines as a text that http_10_parse_header of src/http.c cuts, line by line.
use aisl.Prelude.{
  ℕ, zero, suc, ◌+◌, ◌-◌, ◌≡◌, refl, sym, ap, ◌∙◌, List, [], ◌∷◌, ◌++◌, Bytes, codes, bytes_eq,
  true, false, map, to_lower, length, drop, arith, length-append, drop_exact, append_assoc,
  replicate,
}
use aisl.Http.Scan.{all_chars}
use aisl.Http.Header.{HeaderLine}
use aisl.Http.Header.Extent.{length-parse_header_line}
use aisl.Http.Header.Field.{
  header_text, cut_header_text, header_text-append, parse_header_line-header_text,
}
use aisl.Http.Header.Sweep.{is_key_char, is_value, line_tail}

-- A header line with the spaces round its value.
pub record Line : Type 0 where
  pub key : Bytes
  pub before : ℕ
  pub value : Bytes
  pub after : ℕ

-- Header lines, and the empty line behind them.
abbrev pub headers_text : List Line → Bytes
headers_text [] = codes "\r\n"
headers_text (h ∷ hs) = header_text h.key h.before h.value h.after (headers_text hs)

-- Lines that are read as they are, none of them a Content-Length.
abbrev pub ArePlain : List Line → Type 0
ArePlain [] = Unit {0}
ArePlain (h ∷ hs) =
    (all_chars is_key_char h.key ≡ true)
    × (is_value h.value ≡ true)
    × (bytes_eq (map to_lower h.key) (codes "content-length") ≡ false)
    × ArePlain hs

-- The lines as a text in front of the bytes behind them.
tail-append :
    (after : ℕ) (rest : Bytes) → drop 1 (line_tail after rest) ≡ drop 1 (line_tail after []) ++ rest
tail-append zero rest = refl
tail-append (suc n) rest = sym (append_assoc (replicate n b' ') (codes "\r\n") rest)

cut-append :
    (h : Line) (rest : Bytes)
    → cut_header_text h.key h.before h.value h.after rest
      ≡ cut_header_text h.key h.before h.value h.after [] ++ rest
cut-append h rest =
    let spaces : Bytes = replicate h.before b' ' in
    ap (λ t. map to_lower h.key ++ 0 ∷ (spaces ++ (h.value ++ 0 ∷ t))) (tail-append h.after rest)
    ∙ (simp append_assoc)

pub length-cut :
    (h : Line) (rest beyond : Bytes)
    → all_chars is_key_char h.key ≡ true
    → is_value h.value ≡ true
    → length (cut_header_text h.key h.before h.value h.after (rest ++ beyond))
      ≡ length (header_text h.key h.before h.value h.after rest) + length beyond
length-cut h rest beyond ok good =
    let line = parse_header_line-header_text h.key h.value rest beyond h.before h.after ok good in
    let whole = header_text h.key h.before h.value h.after in
    omega (
      arith,
      length-parse_header_line (whole (rest ++ beyond)) (length (whole rest)),
      ap (λ (r : Bytes × HeaderLine). length r.0) line,
      ap length (header_text-append h.key h.value rest beyond h.before h.after),
      length-append (whole rest) beyond,
    )

-- What is left of the memory behind a line that was cut.
pub drop-cut :
    (h : Line) (rest beyond : Bytes)
    → all_chars is_key_char h.key ≡ true
    → is_value h.value ≡ true
    → drop
        (length (header_text h.key h.before h.value h.after rest) - length rest)
        (cut_header_text h.key h.before h.value h.after (rest ++ beyond))
      ≡ rest ++ beyond
drop-cut h rest beyond ok good =
    let whole = header_text h.key h.before h.value h.after in
    let cut = cut_header_text h.key h.before h.value h.after in
    let size = length (whole rest) in
    ap (drop (size - length rest)) (cut-append h (rest ++ beyond))
    ∙ drop_exact (size - length rest) (cut []) (rest ++ beyond) (
        omega (
          arith,
          length-cut h rest beyond ok good,
          ap length (cut-append h (rest ++ beyond)),
          length-append (cut []) (rest ++ beyond),
          length-append rest beyond,
        ))
